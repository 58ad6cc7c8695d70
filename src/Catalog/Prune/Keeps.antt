-- ===== src/Catalog/Prune/Keeps.antt =====
-- The current revision of a session before and after `prune_to_current` of src/catalog.rs.
use agent_transcript.Prelude.{
  ℕ, Bytes, bytes_eq_iff, ◌≡◌, refl, arith, ◌∙◌, ap, sym, subst, true, some, List, [], ◌∷◌, ◌++◌,
  any, All, map, get_elem?, length, Bool-cases, inl, inr,
}
use agent_transcript.Errors.{ok}
use agent_transcript.Freshness.{Freshness, Current, choose_current, display_of, is_ambiguous}
use agent_transcript.Freshness.Order.{Outranks, Ties}
use agent_transcript.Freshness.Choice.{choose_current-Choice, clashes, clashes_iff}
use agent_transcript.Catalog.{Revision, hash_of}
use agent_transcript.Catalog.Prune.{superseded, prune_revisions, freshness_of}
use agent_transcript.Catalog.Prune.Survivors.{superseded_iff, mem, survivors, get_elem?-middle}
use agent_transcript.Catalog.Prune.Cuts.{
  CurrentAt, current_at, prune_revisions-survivors, not_superseded_self,
}

survivors_behind :
    (current : Freshness) (pre : List Revision) (seen : List Bytes) (rs : List Revision)
    → All (λ r. superseded current r ≡ true) pre
    → survivors current seen (pre ++ rs) ≡ survivors current seen rs
unfolding survivors
survivors_behind current [] seen rs h = refl
survivors_behind current (r ∷ pre) seen rs (o, h) = rw o (survivors_behind current pre seen rs h)

-- The survivors behind the current revision tie with it.
survivors-Ties :
    (current : Freshness) (seen : List Bytes) (rs : List Revision)
    → All (λ f. ¬ Outranks f current) (map freshness_of rs)
    → All (λ f. Ties current f) (map freshness_of (survivors current seen rs))
unfolding survivors
survivors-Ties current seen [] h = tt
survivors-Ties current seen (r ∷ rs) (t, h) = elim (Bool-cases (superseded current r)) [
  | inl old ↦ rw old (survivors-Ties current seen rs h)
  | inr top ↦ elim (Bool-cases (mem (hash_of r) seen)) [
    | inl known ↦ rw (top, known) (survivors-Ties current seen rs h)
    | inr new ↦
        rw (top, new)
          (ground (arith, superseded_iff current r), survivors-Ties current (hash_of r ∷ seen) rs h)
  ]
]

survivors-clashes :
    (current : Freshness) (rs : List Revision)
    → All (λ f. ¬ Outranks f current) (map freshness_of rs)
    → any (clashes current) (map freshness_of (survivors current (current.content_hash ∷ []) rs))
      ≡ any (clashes current) (map freshness_of rs)
unfolding survivors
survivors-clashes current [] h = refl
survivors-clashes current (r ∷ rs) (t, h) = elim (Bool-cases (superseded current r)) [
  | inl old ↦ rw old (
      ground (
        arith,
        survivors-clashes current rs h,
        superseded_iff current r,
        clashes_iff current r.freshness,
      ))
  | inr top ↦ elim (Bool-cases (mem (hash_of r) (current.content_hash ∷ []))) [
    | inl known ↦
        rw (top, known)
          (ground (
            arith,
            survivors-clashes current rs h,
            clashes_iff current r.freshness,
            bytes_eq_iff current.content_hash (hash_of r),
          ))
    | inr new ↦
        rw (top, new)
          (ground (
            arith,
            superseded_iff current r,
            clashes_iff current r.freshness,
            bytes_eq_iff current.content_hash (hash_of r),
          ))
  ]
]

-- The current revision comes first among the survivors.
pub prune_revisions-cons :
    (r : Revision) (rs : List Revision) (c : Current) (k : CurrentAt (r ∷ rs) c)
    → prune_revisions (r ∷ rs) ≡ k.here ∷ survivors k.here.freshness (hash_of k.here ∷ []) k.post
unfolding survivors
prune_revisions-cons r rs c k =
    prune_revisions-survivors r rs c k
    ∙ ap (survivors k.here.freshness []) k.whole
    ∙ survivors_behind k.here.freshness k.pre [] (k.here ∷ k.post) k.old
    ∙ rw (not_superseded_self k.here)

All-middle {κ} :
    (P : Freshness → Type κ) (front : List Freshness) (f : Freshness) (back : List Freshness)
    → All P (front ++ f ∷ back)
    → P f
All-middle P [] f back h = h.0
All-middle P (g ∷ front) f back h = All-middle P front f back h.1

tied_list :
    (b f : Freshness) (items front back : List Freshness) (x : Freshness)
    → All (λ f. Ties b f) items
    → items ≡ front ++ f ∷ back
    → Outranks f b
    → ⊥
tied_list b f items front back x ties e o =
    let t : Ties b f =
      All-middle (λ g. Ties b g) front f back (subst (All (λ g. Ties b g)) e ties) in
    ground arith

-- In a list whose other items tie with the first one, the first one is current.
first_is_current :
    (b : Freshness) (items front : List Freshness) (current : Freshness) (back : List Freshness)
    → All (λ f. Ties b f) items
    → b ∷ items ≡ front ++ current ∷ back
    → All (λ f. Outranks current f) front
    → (front ≡ []) × (current ≡ b) × (back ≡ items)
first_is_current b items [] current back ties whole older = (refl, cc, cc)
first_is_current b items (x ∷ front) current back ties whole (o, older) =
    let same : x ≡ b = cc in
    absurd (tied_list b current items front back x ties (cc) (subst (Outranks current) same o))

-- A session's list of revisions and its pruned list give the same current revision: `choose_current`
-- succeeds on both, names the same revision of the two lists, and reports an ambiguity on both or
-- on neither.
pub record SameCurrent (before after : List Revision) : Type 0 where
  pub current_before : Current
  pub current_after : Current
  pub here : Revision
  pub chosen_before : choose_current (map freshness_of before) ≡ ok current_before
  pub chosen_after : choose_current (map freshness_of after) ≡ ok current_after
  pub shown_before : get_elem? before (display_of current_before) ≡ some here
  pub shown_after : get_elem? after (display_of current_after) ≡ some here
  pub ambiguity : is_ambiguous current_after ≡ is_ambiguous current_before

-- The current revision of the pruned list.
shown_at :
    (before pre post : List Revision) (here : Revision) (i : ℕ)
    → before ≡ pre ++ here ∷ post
    → i ≡ length pre
    → get_elem? before i ≡ some here
shown_at before pre post here i e p = rw (e, p) (get_elem?-middle pre here post)

-- Pruning a session that has a revision does not change what a reader sees as its current
-- revision: before and after, `choose_current` succeeds, names the same revision, and reports an
-- ambiguity in both lists or in neither.
pub prune_revisions-SameCurrent :
    (r : Revision) (rs : List Revision) → SameCurrent (r ∷ rs) (prune_revisions (r ∷ rs))
prune_revisions-SameCurrent r rs =
    let (c, k) = current_at r rs in
    let b = k.here.freshness in
    let rest = survivors b (hash_of k.here ∷ []) k.post in
    let (d, chosen, choice) = choose_current-Choice b (map freshness_of rest) in
    let first =
      first_is_current b (map freshness_of rest) choice.front choice.current choice.back
        (survivors-Ties b (hash_of k.here ∷ []) k.post k.top) choice.whole choice.older in
    subst (SameCurrent (r ∷ rs)) (sym (prune_revisions-cons r rs c k)) (record {
      current_before = c;
      current_after = d;
      here = k.here;
      chosen_before = k.chosen;
      chosen_after = chosen;
      shown_before = shown_at (r ∷ rs) k.pre k.post k.here (display_of c) k.whole k.position;
      shown_after = rw (choice.position, first.0) refl;
      ambiguity = rw (choice.tie, first.1, first.2) (survivors-clashes b k.post k.top) ∙ sym k.tie;
    })
