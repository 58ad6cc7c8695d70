-- ===== src/Catalog/Total.antt =====
-- When `merge_catalogs` of src/catalog.rs succeeds.
use agent_transcript.Prelude.{
  bytes_eq, ◌≡◌, refl, ◌∙◌, arith, Bool, true, false, not, ◌&&◌, ◌||◌, ◌==◌, List, [], ◌∷◌, all,
  all-sort_by, sort_by, Bool-cases, inl, inr,
}
use agent_transcript.Harness.{Harness}
use agent_transcript.Errors.{ok}
use agent_transcript.Catalog.{
  SessionRecord, Catalog, same_session, absorb, absorb_all, close_sessions, session_before,
  merge_catalogs, validate, is_nil, schema_version, sorted_revisions, push_revisions,
}
use agent_transcript.Catalog.Valid.{is_valid, validate_iff, absorb_all-valid, sort_by-is_nil}

module _ {H : Type 0} ⦃h : Harness H⦄ where
  -- Two records of one session name the same repository.
  abbrev pub agrees : SessionRecord H → SessionRecord H → Bool
  agrees s existing = not (same_session existing s) || bytes_eq existing.repo_key s.repo_key

  absorb-ok :
      (s : SessionRecord H) (sessions : List (SessionRecord H))
      → all (agrees s) sessions ≡ true
      → (result : List (SessionRecord H)) × (absorb s sessions ≡ ok result)
        × ((t : SessionRecord H)
            → all (agrees t) sessions ≡ true
            → agrees t s ≡ true
            → all (agrees t) result ≡ true)
  unfolding absorb
  absorb-ok s [] a = (s ∷ [], refl, λ t b c. ground arith)
  absorb-ok s (existing ∷ sessions) a = elim (Bool-cases (same_session existing s)) [
    | inl same ↦
        let one : bytes_eq existing.repo_key s.repo_key ≡ true = ground arith in
        (
          record existing { revisions = push_revisions existing.revisions s.revisions } ∷ sessions,
          rw (same, one) refl,
          λ t b c. b,
        )
    | inr other ↦
        let (rest, done, keep) = absorb-ok s sessions (ground arith) in
        (existing ∷ rest, rw (other, done) refl, λ t b c. ground (arith, keep t))
  ]

  -- Every incoming record agrees with the base.
  abbrev pub agree_with : List (SessionRecord H) → List (SessionRecord H) → Bool
  agree_with sessions [] = true
  agree_with sessions (s ∷ incoming) = all (agrees s) sessions && agree_with sessions incoming

  -- Every record agrees with those before it.
  abbrev pub agree_each : List (SessionRecord H) → Bool
  agree_each [] = true
  agree_each (s ∷ incoming) = agree_with (s ∷ []) incoming && agree_each incoming

  agree_with_next :
      (s : SessionRecord H) (sessions next incoming : List (SessionRecord H))
      → ((t : SessionRecord H)
          → all (agrees t) sessions ≡ true
          → agrees t s ≡ true
          → all (agrees t) next ≡ true)
      → agree_with sessions incoming ≡ true
      → agree_with (s ∷ []) incoming ≡ true
      → agree_with next incoming ≡ true
  agree_with_next s sessions next [] keep a b = refl
  agree_with_next s sessions next (t ∷ incoming) keep a b =
      ground (arith, keep t, agree_with_next s sessions next incoming keep)

  absorb_all-ok :
      (sessions incoming : List (SessionRecord H))
      → agree_with sessions incoming ≡ true
      → agree_each incoming ≡ true
      → (result : List (SessionRecord H)) × (absorb_all sessions incoming ≡ ok result)
  unfolding absorb_all
  absorb_all-ok sessions [] a b = (sessions, refl)
  absorb_all-ok sessions (s ∷ incoming) a b =
      let (next, done, keep) = absorb-ok s sessions (ground arith) in
      let (result, more) =
        absorb_all-ok next incoming
          (agree_with_next s sessions next incoming keep (ground arith) (ground arith))
          (ground arith) in
      (result, rw (absorb_all, done) more)

  close_sessions-ok :
      (sessions : List (SessionRecord H))
      → all (λ s. not (is_nil (sorted_revisions s).revisions)) sessions ≡ true
      → (result : List (SessionRecord H)) × (close_sessions sessions ≡ ok result)
  unfolding close_sessions
  close_sessions-ok [] a = ([], refl)
  close_sessions-ok (s ∷ sessions) a =
      let (rest, done) = close_sessions-ok sessions (ground arith) in
      let one : is_nil (sorted_revisions s).revisions ≡ false = ground arith in
      (sorted_revisions s ∷ rest, rw (one, done) refl)

  valid-closable :
      (sessions : List (SessionRecord H))
      → all is_valid sessions ≡ true
      → all (λ s. not (is_nil (sorted_revisions s).revisions)) sessions ≡ true
  unfolding is_valid
  valid-closable [] a = refl
  valid-closable (s ∷ sessions) a =
      ground (arith, valid-closable sessions, sort_by-is_nil s.revisions)

  -- Two valid catalogs can be merged if no session has different repositories in them: neither in the
  -- base and the incoming one, nor within the incoming one.
  pub merge_catalogs-ok :
      (base incoming : Catalog H)
      → validate base ≡ ok tt
      → validate incoming ≡ ok tt
      → agree_with base.sessions incoming.sessions ≡ true
      → agree_each incoming.sessions ≡ true
      → (merged : Catalog H) × (merge_catalogs base incoming ≡ ok merged)
  unfolding merge_catalogs
  merge_catalogs-ok base incoming p q a b =
      let (v, base_valid) = (validate_iff base).0 p in
      let (w, incoming_valid) = (validate_iff incoming).0 q in
      let (sessions, absorbed) = absorb_all-ok base.sessions incoming.sessions a b in
      let valid : all is_valid (sort_by session_before sessions) ≡ true =
        all-sort_by session_before is_valid sessions
        ∙ absorb_all-valid base.sessions incoming.sessions absorbed base_valid incoming_valid in
      let (closed, done) =
        close_sessions-ok (sort_by session_before sessions)
          (valid-closable (sort_by session_before sessions) valid) in
      let x : (base.schema == schema_version) ≡ true = ground arith in
      let y : (incoming.schema == schema_version) ≡ true = ground arith in
      (
        record { schema = schema_version; sessions = closed },
        rw (merge_catalogs, x, y, absorbed, done) refl,
      )
