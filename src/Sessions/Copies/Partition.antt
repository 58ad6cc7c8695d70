-- ===== src/Sessions/Copies/Partition.antt =====
-- src/local_state.rs: `grouped`, that each usable record stands in one group; src/sessions.rs:
-- `local_views`.
use agent_transcript.Prelude.{
  Bytes, bytes_eq_refl, Bool, true, false, not, Option, none, some, List, [], ◌∷◌, ◌++◌, append-nil,
  ◌≡◌, refl, sym, ap, inl, inr, map, keep_if, Bool-cases, if◌then◌else◌, append_assoc,
}
use agent_transcript.Harness.{Harness}
use agent_transcript.LocalState.{LocalStore, SourceRecord}
use agent_transcript.Merge.{LocalView}
use agent_transcript.Sessions.{choose_local}
use agent_transcript.Sessions.Copies.{
  Group, same_group, same_repo_key, push_record, group_all, grouped, is_grouped, records, view_of,
  view_of_group, local_views,
}

keep_if-snoc {ℓ} :
    {A : Type ℓ} (p : A → Bool) (xs : List A) (x : A)
    → keep_if p (xs ++ x ∷ []) ≡ keep_if p xs ++ (if p x then x ∷ [] else [])
keep_if-snoc p [] x = refl
keep_if-snoc p (y ∷ ys) x = elim (Bool-cases (p y)) [
  | inl e ↦ rw (e, keep_if-snoc p ys x) refl
  | inr e ↦ rw (e, keep_if-snoc p ys x) refl
]

keep_if-snoc_kept {ℓ} :
    {A : Type ℓ} (p : A → Bool) (xs : List A) (x : A)
    → p x ≡ true
    → keep_if p (xs ++ x ∷ []) ≡ keep_if p xs ++ x ∷ []
keep_if-snoc_kept p xs x e = rw (keep_if-snoc p xs x, e) refl

keep_if-snoc_dropped {ℓ} :
    {A : Type ℓ} (p : A → Bool) (xs : List A) (x : A)
    → p x ≡ false
    → keep_if p (xs ++ x ∷ []) ≡ keep_if p xs
keep_if-snoc_dropped p xs x e = rw (keep_if-snoc p xs x, e) (append-nil _)

same_repo_key_refl : (k : Option Bytes) → same_repo_key k k ≡ true
same_repo_key_refl none = refl
same_repo_key_refl (some k) = bytes_eq_refl k

module _ {H : Type 0} ⦃h : Harness H⦄ where
  -- Each group is, in their order, the records of one key that stand in no group before it, and
  -- no record is left.
  abbrev pub IsPartition : List (SourceRecord H) → List (Group H) → Type 0
  IsPartition rs [] = rs ≡ []
  IsPartition rs ((first, others) ∷ groups) =
      (first ∷ others ≡ keep_if (same_group first) rs)
      × IsPartition (keep_if (λ r. not (same_group first r)) rs) groups

  same_group_refl : (r : SourceRecord H) → same_group r r ≡ true
  unfolding same_group
  same_group_refl r =
      rw
        (
          (h.beq_iff r.harness r.harness).1 refl,
          bytes_eq_refl r.session_id,
          same_repo_key_refl r.repo_key,
        )
        refl

  push_record_same :
      (r first : SourceRecord H) (others : List (SourceRecord H)) (groups : List (Group H))
      → same_group first r ≡ true
      → push_record r ((first, others) ∷ groups) ≡ (first, others ++ r ∷ []) ∷ groups
  unfolding push_record
  push_record_same r first others groups e = rw (push_record, e) refl

  push_record_other :
      (r first : SourceRecord H) (others : List (SourceRecord H)) (groups : List (Group H))
      → same_group first r ≡ false
      → push_record r ((first, others) ∷ groups) ≡ (first, others) ∷ push_record r groups
  unfolding push_record
  push_record_other r first others groups e = rw (push_record, e) refl

  push_record_first :
      (r : SourceRecord H) (rs : List (SourceRecord H))
      → rs ≡ []
      → IsPartition (rs ++ r ∷ []) (push_record r [])
  unfolding push_record
  push_record_first r rs e = rw (e, same_group_refl r) (refl, refl)

  push_record-IsPartition :
      (r : SourceRecord H) (groups : List (Group H)) (rs : List (SourceRecord H))
      → IsPartition rs groups
      → IsPartition (rs ++ r ∷ []) (push_record r groups)
  push_record-IsPartition r [] rs e = push_record_first r rs e
  push_record-IsPartition r ((first, others) ∷ groups) rs (e, p) =
      elim (Bool-cases (same_group first r)) [
        | inl same ↦
            rw
              (
                push_record_same r first others groups same,
                keep_if-snoc_kept (same_group first) rs r same,
                keep_if-snoc_dropped (λ x. not (same_group first x)) rs r (ap not same),
                sym e,
              )
              (refl, p)
        | inr other ↦
            rw
              (
                push_record_other r first others groups other,
                keep_if-snoc_dropped (same_group first) rs r other,
                keep_if-snoc_kept (λ x. not (same_group first x)) rs r (ap not other),
              )
              (e, push_record-IsPartition r groups _ p)
      ]

  group_all-IsPartition :
      (rest rs : List (SourceRecord H)) (groups : List (Group H))
      → IsPartition rs groups
      → IsPartition (rs ++ keep_if is_grouped rest) (group_all rest groups)
  unfolding group_all
  group_all-IsPartition [] rs groups p = rw (append-nil rs) p
  group_all-IsPartition (r ∷ rest) rs groups p = elim (Bool-cases (is_grouped r)) [
    | inl e ↦
        rw (e, sym (append_assoc rs (r ∷ []) (keep_if is_grouped rest)))
          (group_all-IsPartition rest (rs ++ r ∷ []) (push_record r groups)
            (push_record-IsPartition r groups rs p))
    | inr e ↦ rw (e) (group_all-IsPartition rest rs groups p)
  ]

  -- What `local_views` shows of the records `rs`: each view is the copy that `choose_local` keeps
  -- of the first record with its key and of all others with that key, and each record is among them
  -- once.
  abbrev pub IsShown : List (SourceRecord H) → List (LocalView H) → Type 0
  IsShown rs [] = rs ≡ []
  IsShown rs (v ∷ views) =
      (first : SourceRecord H) × (others : List (SourceRecord H)) × (first ∷ others
        ≡ keep_if (same_group first) rs)
      × (v ≡ choose_local (view_of first) (map view_of others))
      × IsShown (keep_if (λ r. not (same_group first r)) rs) views

  IsPartition-IsShown :
      (groups : List (Group H)) (rs : List (SourceRecord H))
      → IsPartition rs groups
      → IsShown rs (map view_of_group groups)
  unfolding view_of_group
  IsPartition-IsShown [] rs e = e
  IsPartition-IsShown ((first, others) ∷ groups) rs (e, p) =
      (first, others, e, refl, IsPartition-IsShown groups _ p)

  -- The views of `local_views` part the records of the store that are not broken and have a session
  -- id by harness, session and repository: each view is the copy that `choose_local` keeps of all the
  -- records with one key, taken in the store's order; every such record counts for a view, and no
  -- two views share a key.
  pub local_views-IsShown :
      (s : LocalStore H) → IsShown (keep_if is_grouped (records s)) (local_views s)
  unfolding local_views grouped
  local_views-IsShown s =
      IsPartition-IsShown (grouped s) _ (group_all-IsPartition (records s) [] [] refl)
