-- ===== src/Catalog/Valid.antt =====
-- `validate` of src/catalog.rs, and what it says of a merged catalog.
use agent_transcript.Prelude.{
  Bytes, bytes_eq, ◌≡◌, ◌↔◌, refl, arith, Bool, true, false, not, ◌&&◌, List, [], ◌∷◌, ◌++◌, all,
  all-append, all-sort_by, sort_by, insert_by, inl, inr, Bool-cases,
}
use agent_transcript.Catalog.Steps.{
  absorb-cons, absorb_all-cons, close_sessions-cons, merge_catalogs_steps,
}
use agent_transcript.Harness.{Harness}
use agent_transcript.Errors.{Result, ok, err}
use agent_transcript.Catalog.{
  Revision, SessionRecord, Catalog, absorb, absorb_all, session_before, close_sessions,
  merge_catalogs, object_key, hash_of, has_hash, push_revisions, revision_before, validate,
  validate_revisions, validate_sessions, is_nil, schema_version,
}

-- `object_key` of the revision's hash succeeds and is where the revision is stored.
is_placed_at : Bytes → Result Bytes → Bool
is_placed_at stored (ok expected) = bytes_eq stored expected
is_placed_at stored (err e) = false

unfoldable pub is_placed : Revision → Bool
unfolding is_placed_at
is_placed r = is_placed_at r.object_key (object_key (hash_of r))

validate_revisions_iff :
    (revisions : List Revision)
    → (validate_revisions revisions ≡ ok tt) ↔ (all is_placed revisions ≡ true)
unfolding validate_revisions is_placed object_key
validate_revisions_iff [] = ground arith
validate_revisions_iff (r ∷ revisions) = ground (arith, validate_revisions_iff revisions)

push_revisions-placed :
    (current incoming : List Revision)
    → all is_placed current ≡ true
    → all is_placed incoming ≡ true
    → all is_placed (push_revisions current incoming) ≡ true
unfolding push_revisions
push_revisions-placed current [] p q = p
push_revisions-placed current (r ∷ incoming) p q =
    elim (Bool-cases (has_hash (hash_of r) current)) [
      | inl there ↦ rw there (push_revisions-placed current incoming p (ground arith))
      | inr fresh ↦ rw fresh (
          push_revisions-placed (current ++ r ∷ []) incoming
            (ground (arith, all-append is_placed current (r ∷ []))) (ground arith))
    ]

push_revisions-is_nil :
    (current incoming : List Revision)
    → is_nil current ≡ false
    → is_nil (push_revisions current incoming) ≡ false
unfolding push_revisions
push_revisions-is_nil current [] p = p
push_revisions-is_nil [] (r ∷ incoming) p = absurd (cc)
push_revisions-is_nil (c ∷ current) (r ∷ incoming) p =
    elim (Bool-cases (has_hash (hash_of r) (c ∷ current))) [
      | inl there ↦ rw there (push_revisions-is_nil (c ∷ current) incoming refl)
      | inr fresh ↦ rw fresh (push_revisions-is_nil (c ∷ (current ++ r ∷ [])) incoming refl)
    ]

insert_by-is_nil :
    (r : Revision) (rs : List Revision) → is_nil (insert_by revision_before r rs) ≡ false
unfolding insert_by
insert_by-is_nil r [] = refl
insert_by-is_nil r (x ∷ rs) = ground arith

pub sort_by-is_nil : (rs : List Revision) → is_nil (sort_by revision_before rs) ≡ is_nil rs
unfolding sort_by
sort_by-is_nil [] = refl
sort_by-is_nil (r ∷ rs) = insert_by-is_nil r (sort_by revision_before rs)

module _ {H : Type 0} ⦃h : Harness H⦄ where
  -- A record that `validate` passes: it has a revision, and each is stored under its hash's key.
  unfoldable pub is_valid : SessionRecord H → Bool
  is_valid s = not (is_nil s.revisions) && all is_placed s.revisions

  validate_sessions_iff :
      (sessions : List (SessionRecord H))
      → (validate_sessions sessions ≡ ok tt) ↔ (all is_valid sessions ≡ true)
  unfolding validate_sessions is_valid
  validate_sessions_iff [] = ground arith
  validate_sessions_iff (s ∷ sessions) =
      ground (arith, validate_sessions_iff sessions, validate_revisions_iff s.revisions)

  -- `validate` passes exactly the catalogs of the current schema in which every session has a revision
  -- and every revision is stored under the key of its content hash.
  pub validate_iff :
      (c : Catalog H)
      → (validate c ≡ ok tt) ↔ ((c.schema ≡ schema_version) × (all is_valid c.sessions ≡ true))
  unfolding validate
  validate_iff c = ground (arith, validate_sessions_iff c.sessions)

  absorb-valid :
      (s : SessionRecord H) (sessions : List (SessionRecord H)) {result : List (SessionRecord H)}
      → absorb s sessions ≡ ok result
      → is_valid s ≡ true
      → all is_valid sessions ≡ true
      → all is_valid result ≡ true
  unfolding is_valid
  absorb-valid s [] e p q = unfold absorb in ground arith
  absorb-valid s (existing ∷ sessions) e p q = elim (absorb-cons s existing sessions e) [
    | inl (found, _, same) ↦ ground (
      arith,
      push_revisions-placed existing.revisions s.revisions,
      push_revisions-is_nil existing.revisions s.revisions,
    )
    | inr (other, (rest, absorbed, same)) ↦ ground (arith, absorb-valid s sessions absorbed)
  ]

  pub absorb_all-valid :
      (sessions incoming : List (SessionRecord H)) {result : List (SessionRecord H)}
      → absorb_all sessions incoming ≡ ok result
      → all is_valid sessions ≡ true
      → all is_valid incoming ≡ true
      → all is_valid result ≡ true
  absorb_all-valid sessions [] e p q = unfold absorb_all in ground arith
  absorb_all-valid sessions (s ∷ incoming) e p q =
      let (next, absorbed, e') = absorb_all-cons sessions s incoming e in
      ground (arith, absorb-valid s sessions absorbed, absorb_all-valid next incoming e')

  pub close_sessions-valid :
      (sessions : List (SessionRecord H)) {result : List (SessionRecord H)}
      → close_sessions sessions ≡ ok result
      → all is_valid sessions ≡ true
      → all is_valid result ≡ true
  unfolding is_valid
  close_sessions-valid [] e p = unfold close_sessions in ground arith
  close_sessions-valid (s ∷ sessions) e p =
      let (rest, closed, same, _) = close_sessions-cons s sessions e in
      ground (
        arith,
        close_sessions-valid sessions closed,
        sort_by-is_nil s.revisions,
        all-sort_by revision_before is_placed s.revisions,
      )

  -- Merging two valid catalogs gives a valid catalog.
  pub merge_catalogs-valid :
      (base incoming merged : Catalog H)
      → merge_catalogs base incoming ≡ ok merged
      → validate base ≡ ok tt
      → validate incoming ≡ ok tt
      → validate merged ≡ ok tt
  merge_catalogs-valid base incoming merged e p q =
      let (sessions, closed, absorbed, done, same) = merge_catalogs_steps base incoming e in
      (validate_iff merged).1 (
        ground arith,
        ground (
          arith,
          (validate_iff base).0 p,
          (validate_iff incoming).0 q,
          absorb_all-valid base.sessions incoming.sessions absorbed,
          close_sessions-valid (sort_by session_before sessions) done,
          all-sort_by session_before is_valid sessions,
        ),
      )
