-- ===== src/Sessions/Locals.antt =====
-- `choose_local` of src/sessions.rs, compared with `choose_current` of src/merge.rs.
use agent_transcript.Prelude.{
  ℕ, suc, ◌+◌, ◌≡◌, refl, arith, Bool, true, false, not, sym, ap, subst, ◌∙◌, some, List, [], ◌∷◌,
  map, all, get_elem?, inl, inr,
}
use agent_transcript.Errors.{ok}
use agent_transcript.Freshness.{
  Freshness, Best, Current, rank, pick_of, prefer, visit, visit_rank, choose_loop, choose_current,
  current_of, display_of, is_ambiguous,
}
use agent_transcript.Freshness.Order.{rank_cases}
use agent_transcript.Merge.{LocalView}
use agent_transcript.Sessions.{choose_local, picked}

suc_add : (n : ℕ) → suc n ≡ 1 + n
suc_add n = omega arith

display_of-current_of : (s : Best) → display_of (current_of s) ≡ s.best
unfolding current_of
display_of-current_of s = ground arith

is_ambiguous-current_of : (s : Best) → is_ambiguous (current_of s) ≡ s.tied
unfolding current_of
is_ambiguous-current_of s = ground arith

module _ {H : Type 0} where
  abbrev plain : LocalView H → Bool
  plain v = not v.ambiguous

  abbrev snapshot_of : LocalView H → Freshness
  snapshot_of v = v.freshness

  -- The two loops stand at the same copy, `at`, and agree about ties.
  record Agree (views : List (LocalView H)) (s : Best) (best : LocalView H) : Type 0 where
    at : LocalView H
    found : get_elem? views s.best ≡ some at
    current : at.freshness ≡ s.current
    same_view : best ≡ record at { ambiguous = s.tied }

  plain_same : (v : LocalView H) → plain v ≡ true → v ≡ record v { ambiguous = false }
  plain_same v clean = let clear : v.ambiguous ≡ false = ground arith in cc clear

  step :
      (views : List (LocalView H)) (i : ℕ) (s : Best) (best other : LocalView H)
      → get_elem? views i ≡ some other
      → plain other ≡ true
      → Agree views s best
      → Agree views
          (visit i other.freshness s)
          (picked best other (prefer best.freshness other.freshness))
  unfolding visit visit_rank prefer pick_of picked
  step views i s best other here clean k =
      let same : best.freshness ≡ s.current = ap snapshot_of k.same_view ∙ k.current in
      let ranked = ap (λ f. rank f other.freshness) same in
      elim (rank_cases s.current other.freshness) [
        | inl (e, _) ↦ rw (e, ranked ∙ e) k
        | inr (inl (e, _)) ↦
            rw (e, ranked ∙ e)
              (record {
                at = other;
                found = here;
                current = refl;
                same_view = plain_same other clean;
              })
        | inr (inr (inl (e, _, _))) ↦ rw (e, ranked ∙ e) k
        | inr (inr (inr (e, _, _))) ↦
            rw (e, ranked ∙ e)
              (record {
                at = k.at;
                found = k.found;
                current = k.current;
                same_view = ap (λ (v : LocalView H). record v { ambiguous = true }) k.same_view;
              })
      ]

  loops :
      (views rest : List (LocalView H)) (i : ℕ) (s : Best) (best : LocalView H)
      → ((k : ℕ) → get_elem? views (i + k) ≡ get_elem? rest k)
      → all plain rest ≡ true
      → Agree views s best
      → Agree views (choose_loop i (map snapshot_of rest) s) (choose_local best rest)
  unfolding choose_loop choose_local
  loops views [] i s best tail clean k = k
  loops views (other ∷ rest) i s best tail clean k =
      let here : get_elem? views i ≡ some other =
        subst (λ n. get_elem? views n ≡ some other) (omega arith) (tail 0) in
      loops views rest (i + 1) (visit i other.freshness s) _
        (λ n. subst (λ m. get_elem? views m ≡ get_elem? rest n) (omega arith) (tail (suc n)))
        (ground arith) (step views i s best other here (ground arith) k)

  -- The copy that `choose_local` keeps.
  pub record KeptCopy (first : LocalView H) (group : List (LocalView H)) : Type 0 where
    pub current : Current
    pub chosen : choose_current (map snapshot_of (first ∷ group)) ≡ ok current
    pub at : LocalView H
    pub found : get_elem? (first ∷ group) (display_of current) ≡ some at
    pub kept : choose_local first group ≡ record at { ambiguous = is_ambiguous current }

  -- Among the local copies of a session `choose_local` keeps the one that `choose_current` would name in
  -- the list of their snapshots, and marks it ambiguous exactly if `choose_current` would report an
  -- ambiguity; the copies come without a mark.
  pub choose_local-KeptCopy :
      (first : LocalView H) (group : List (LocalView H))
      → all plain (first ∷ group) ≡ true
      → KeptCopy first group
  unfolding choose_current
  choose_local-KeptCopy first group clean =
      let start : Best = record { best = 0; current = first.freshness; tied = false } in
      let k =
        loops (first ∷ group) group 1 start first
          (λ n. subst (λ m. get_elem? (first ∷ group) m ≡ get_elem? group n) (suc_add n) refl)
          (ground arith)
          (record {
            at = first;
            found = refl;
            current = refl;
            same_view = plain_same first (ground arith);
          }) in
      let last = choose_loop 1 (map snapshot_of group) start in
      record {
        current = current_of last;
        chosen = refl;
        at = k.at;
        found = ap (get_elem? (first ∷ group)) (display_of-current_of last) ∙ k.found;
        kept =
            k.same_view
            ∙ ap (λ b. record k.at { ambiguous = b }) (sym (is_ambiguous-current_of last));
      }
