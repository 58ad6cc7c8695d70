-- ===== src/Catalog/Union.antt =====
-- Which bodies a catalog holds after `merge_catalogs` of src/catalog.rs.
use agent_transcript.Prelude.{
  Bytes, bytes_eq, bytes_eq_iff, ◌≡◌, subst, arith, Bool, true, ◌&&◌, ◌||◌, List, [], ◌∷◌, ◌++◌,
  any, any-append, any-sort_by, sort_by, Bool-cases, inl, inr,
}
use agent_transcript.Catalog.Steps.{
  absorb-cons, absorb_all-cons, close_sessions-cons, merge_catalogs_steps,
}
use agent_transcript.Harness.{Harness}
use agent_transcript.Errors.{ok}
use agent_transcript.Catalog.{
  Revision, SessionRecord, Catalog, hash_of, has_hash, push_revisions, revision_before, absorb,
  absorb_all, session_before, close_sessions, merge_catalogs, sorted_revisions,
}

has_hash_same :
    (k hash : Bytes) (revisions : List Revision)
    → has_hash k revisions ≡ true
    → bytes_eq k hash ≡ true
    → has_hash hash revisions ≡ true
has_hash_same k hash revisions p e =
    subst (λ b. has_hash b revisions ≡ true) ((bytes_eq_iff k hash).0 e) p

pub push_revisions-has_hash :
    (hash : Bytes) (current incoming : List Revision)
    → has_hash hash (push_revisions current incoming)
      ≡ (has_hash hash current || has_hash hash incoming)
unfolding push_revisions
push_revisions-has_hash hash current [] = ground arith
push_revisions-has_hash hash current (r ∷ incoming) =
    elim (Bool-cases (has_hash (hash_of r) current)) [
      | inl there ↦ rw there (
          ground (
            arith,
            push_revisions-has_hash hash current incoming,
            has_hash_same (hash_of r) hash current there,
          ))
      | inr fresh ↦ rw fresh (
          ground (
            arith,
            push_revisions-has_hash hash (current ++ r ∷ []) incoming,
            any-append (λ (c : Revision). bytes_eq (hash_of c) hash) current (r ∷ []),
          ))
    ]

module _ {H : Type 0} ⦃h : Harness H⦄ (harness : H) (id hash : Bytes) where
  -- A session record of the given harness and id that has a body of the given hash.
  abbrev pub holds : SessionRecord H → Bool
  holds s = (h.beq s.harness harness && bytes_eq s.session_id id) && has_hash hash s.revisions

  absorb-holds :
      (s : SessionRecord H) (sessions : List (SessionRecord H)) {result : List (SessionRecord H)}
      → absorb s sessions ≡ ok result
      → any holds result ≡ (any holds sessions || holds s)
  absorb-holds s [] e = unfold absorb in ground arith
  absorb-holds s (existing ∷ sessions) {result} e = elim (absorb-cons s existing sessions e) [
    | inl (found, _, same) ↦ ground (
      arith,
      push_revisions-has_hash hash existing.revisions s.revisions,
      h.beq_iff existing.harness s.harness,
      bytes_eq_iff existing.session_id s.session_id,
    )
    | inr (other, (rest, absorbed, same)) ↦ ground (arith, absorb-holds s sessions absorbed)
  ]

  absorb_all-holds :
      (sessions incoming : List (SessionRecord H)) {result : List (SessionRecord H)}
      → absorb_all sessions incoming ≡ ok result
      → any holds result ≡ (any holds sessions || any holds incoming)
  absorb_all-holds sessions [] e = unfold absorb_all in ground arith
  absorb_all-holds sessions (s ∷ incoming) e =
      let (next, absorbed, e') = absorb_all-cons sessions s incoming e in
      ground (arith, absorb-holds s sessions absorbed, absorb_all-holds next incoming e')

  sorted_revisions-holds : (s : SessionRecord H) → holds (sorted_revisions s) ≡ holds s
  sorted_revisions-holds s =
      rw (any-sort_by revision_before (λ (c : Revision). bytes_eq (hash_of c) hash) s.revisions)

  close_sessions-holds :
      (sessions : List (SessionRecord H)) {result : List (SessionRecord H)}
      → close_sessions sessions ≡ ok result
      → any holds result ≡ any holds sessions
  close_sessions-holds [] e = unfold close_sessions in ground arith
  close_sessions-holds (s ∷ sessions) e =
      let (rest, closed, same, _) = close_sessions-cons s sessions e in
      ground (arith, close_sessions-holds sessions closed, sorted_revisions-holds s)

  -- After a successful merge a body is in the catalog exactly if it was in one of the two: no
  -- revision is lost, and none is made up.
  pub merge_catalogs-holds :
      (base incoming merged : Catalog H)
      → merge_catalogs base incoming ≡ ok merged
      → any holds merged.sessions ≡ (any holds base.sessions || any holds incoming.sessions)
  merge_catalogs-holds base incoming merged e =
      let (sessions, closed, absorbed, done, same) = merge_catalogs_steps base incoming e in
      ground (
        arith,
        absorb_all-holds base.sessions incoming.sessions absorbed,
        close_sessions-holds (sort_by session_before sessions) done,
        any-sort_by session_before holds sessions,
      )
