-- ===== src/Freshness/Choice.antt =====
-- The loop of `choose_current` of src/merge.rs, and the list cut at the snapshot that it names.
use agent_transcript.Prelude.{
  ℕ, ◌+◌, bytes_eq_iff, ◌≡◌, ◌≢◌, ◌↔◌, inl, inr, refl, arith, Bool, true, false, ◌||◌, List, [],
  ◌∷◌, any, All, All-map, All-append, any-append, length, length-append, ◌++◌, append_assoc,
  append-nil, subst,
}
use agent_transcript.Errors.{ok}
use agent_transcript.Freshness.{
  Freshness, Rank, left, right, same, Current, rank, Best, visit, choose_loop, choose_current,
  current_of, display_of, is_ambiguous,
}
use agent_transcript.Freshness.Order.{Outranks, Ties, rank_cases}

-- `f` ranks like `b` and has another body.
abbrev clash_of : Rank → Bool
clash_of Rank.ambiguous = true
clash_of left = false
clash_of right = false
clash_of same = false

pub clashes : Freshness → Freshness → Bool
clashes b f = clash_of (rank b f)

pub clashes_iff :
    (b f : Freshness) → (clashes b f ≡ true) ↔ (Ties b f × (b.content_hash ≢ f.content_hash))
unfolding clashes rank
clashes_iff b f = ground (arith, bytes_eq_iff b.content_hash f.content_hash)

-- Where the loop stands after `items`: the best item, what is before it and what is behind it.
pub record Split (items : List Freshness) (s : Best) : Type 0 where
  pub front : List Freshness
  pub back : List Freshness
  pub whole : items ≡ front ++ s.current ∷ back
  pub position : s.best ≡ length front
  pub older : All (λ f. Outranks s.current f) front
  pub top : All (λ f. ¬ Outranks f s.current) back
  pub tie : s.tied ≡ any (clashes s.current) back

newest_beats_all :
    (items : List Freshness) (s : Best) (f : Freshness)
    → Split items s
    → Outranks f s.current
    → All (λ g. Outranks f g) items
newest_beats_all items s f h newer = rw h.whole (
    All-append (λ g. Outranks f g) h.front (s.current ∷ h.back)
      (All-map (λ g o. ground arith) h.front h.older)
      (newer, All-map (λ g o. ground arith) h.back h.top))

-- The loop goes on from the same best item.
extend :
    (items : List Freshness) (f : Freshness) (s : Best) (t : Bool)
    → Split items s
    → ¬ Outranks f s.current
    → t ≡ (s.tied || clashes s.current f)
    → Split (items ++ f ∷ []) (record s { tied = t })
extend items f s t h below e = record {
  front = h.front;
  back = h.back ++ f ∷ [];
  whole = rw h.whole (append_assoc h.front (s.current ∷ h.back) (f ∷ []));
  position = h.position;
  older = h.older;
  top = All-append (λ g. ¬ Outranks g s.current) h.back (f ∷ []) h.top (below, tt);
  tie = ground (arith, any-append (clashes s.current) h.back (f ∷ []), h.tie);
}

visit-Split :
    (items : List Freshness) (f : Freshness) (s : Best)
    → Split items s
    → Split (items ++ f ∷ []) (visit (length items) f s)
unfolding visit clashes
visit-Split items f s h = elim (rank_cases s.current f) [
  | inl (e, o) ↦ rw e (extend items f s s.tied h (ground arith) (ground arith))
  | inr (inl (e, o)) ↦ rw e (record {
    front = items;
    back = [];
    whole = refl;
    position = refl;
    older = newest_beats_all items s f h o;
    top = tt;
    tie = refl;
  })
  | inr (inr (inl (e, o, _))) ↦ rw e (extend items f s s.tied h (ground arith) (ground arith))
  | inr (inr (inr (e, o, _))) ↦ rw e (extend items f s true h (ground arith) (ground arith))
]

choose_loop-Split :
    (items rest : List Freshness) (i : ℕ) (s : Best)
    → i ≡ length items
    → Split items s
    → Split (items ++ rest) (choose_loop i rest s)
unfolding choose_loop
choose_loop-Split items [] i s e h = rw append-nil h
choose_loop-Split items (f ∷ rest) i s e h =
    let next : Split (items ++ f ∷ []) (visit i f s) = rw e (visit-Split items f s h) in
    let more : i + 1 ≡ length (items ++ f ∷ []) = omega (arith, length-append {0} items (f ∷ [])) in
    subst (λ l. Split l (choose_loop (i + 1) rest (visit i f s))) (append_assoc items (f ∷ []) rest)
      (choose_loop-Split (items ++ f ∷ []) rest (i + 1) (visit i f s) more next)

-- A list of revisions, cut at the current one.
pub record Choice (items : List Freshness) (c : Current) : Type 0 where
  pub front : List Freshness
  pub current : Freshness
  pub back : List Freshness
  pub whole : items ≡ front ++ current ∷ back
  pub position : display_of c ≡ length front
  pub older : All (λ f. Outranks current f) front
  pub top : All (λ f. ¬ Outranks f current) back
  pub tie : is_ambiguous c ≡ any (clashes current) back

-- On a list that is not empty `choose_current` succeeds. Everything before the snapshot that it
-- names is strictly older, nothing behind it is newer, and it reports an ambiguity exactly if a
-- snapshot behind it ties with it on a different body.
pub choose_current-Choice :
    (f : Freshness) (items : List Freshness)
    → (c : Current) × (choose_current (f ∷ items) ≡ ok c) × Choice (f ∷ items) c
unfolding choose_current
choose_current-Choice f items =
    let start : Best = record { best = 0; current = f; tied = false } in
    let h : Split (f ∷ items) (choose_loop 1 items start) =
      choose_loop-Split (f ∷ []) items 1 start refl (record {
        front = [];
        back = [];
        whole = refl;
        position = refl;
        older = tt;
        top = tt;
        tie = refl;
      }) in
    (
      current_of (choose_loop 1 items start),
      refl,
      record {
        front = h.front;
        current = (choose_loop 1 items start).current;
        back = h.back;
        whole = h.whole;
        position = ground (arith, h.position);
        older = h.older;
        top = h.top;
        tie = ground (arith, h.tie);
      },
    )
