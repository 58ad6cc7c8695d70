-- ===== src/Catalog/Steps.antt =====
-- What a successful round of each loop of `merge_catalogs` has done.
use agent_transcript.Prelude.{
  bytes_eq_iff, ◌≡◌, ◌⊎◌, arith, true, false, List, ◌∷◌, sort_by, ◌==◌, Bool-cases, inl, inr,
}
use agent_transcript.Harness.{Harness}
use agent_transcript.Errors.{ok, >>=-eq-ok}
use agent_transcript.Catalog.{
  SessionRecord, Catalog, push_revisions, same_session, absorb, absorb_all, session_before,
  close_sessions, merge_catalogs, sorted_revisions, is_nil, schema_version,
}

module _ {H : Type 0} ⦃h : Harness H⦄ where
  -- The session was found, in the same repository, or the round went on behind it.
  pub absorb-cons :
      (s existing : SessionRecord H) (sessions : List (SessionRecord H))
      {result : List (SessionRecord H)}
      → absorb s (existing ∷ sessions) ≡ ok result
      → ((same_session existing s ≡ true)
          × (existing.repo_key ≡ s.repo_key)
          × (result
              ≡ record existing { revisions = push_revisions existing.revisions s.revisions }
                ∷ sessions))
        ⊎ ((same_session existing s ≡ false)
            × ((rest : List (SessionRecord H)) × (absorb s sessions ≡ ok rest)
                × (result ≡ existing ∷ rest)))
  unfolding absorb
  absorb-cons s existing sessions e = elim (Bool-cases (same_session existing s)) [
    | inl found ↦ inl (ground (arith, bytes_eq_iff existing.repo_key s.repo_key))
    | inr other ↦
        let (rest, absorbed, same) =
          >>=-eq-ok (absorb s sessions) (λ rest. ok (existing ∷ rest)) (rw other at e) in
        inr (other, (rest, absorbed, cc))
  ]

  pub absorb_all-cons :
      (sessions : List (SessionRecord H)) (s : SessionRecord H) (incoming : List (SessionRecord H))
      {result : List (SessionRecord H)}
      → absorb_all sessions (s ∷ incoming) ≡ ok result
      → (next : List (SessionRecord H)) × (absorb s sessions ≡ ok next)
        × (absorb_all next incoming ≡ ok result)
  unfolding absorb_all
  absorb_all-cons sessions s incoming e =
      >>=-eq-ok (absorb s sessions) (λ next. absorb_all next incoming) e

  pub close_sessions-cons :
      (s : SessionRecord H) (sessions : List (SessionRecord H)) {result : List (SessionRecord H)}
      → close_sessions (s ∷ sessions) ≡ ok result
      → (rest : List (SessionRecord H)) × (close_sessions sessions ≡ ok rest)
        × (result ≡ sorted_revisions s ∷ rest)
        × (is_nil (sorted_revisions s).revisions ≡ false)
  unfolding close_sessions
  close_sessions-cons s sessions e = elim (Bool-cases (is_nil (sorted_revisions s).revisions)) [
    | inl none_left ↦ absurd (cc (rw none_left at e))
    | inr some_left ↦
        let (rest, closed, same) =
          >>=-eq-ok (close_sessions sessions) (λ rest. ok (sorted_revisions s ∷ rest))
            (rw some_left at e) in
        (rest, closed, cc, some_left)
  ]

  pub merge_catalogs_steps :
      (base incoming : Catalog H) {merged : Catalog H}
      → merge_catalogs base incoming ≡ ok merged
      → (sessions closed : List (SessionRecord H)) × (absorb_all base.sessions incoming.sessions
          ≡ ok sessions)
        × (close_sessions (sort_by session_before sessions) ≡ ok closed)
        × (merged ≡ record { schema = schema_version; sessions = closed })
  unfolding merge_catalogs
  merge_catalogs_steps base incoming e = elim (Bool-cases (base.schema == schema_version)) [
    | inr bad ↦ absurd (cc (rw bad at e))
    | inl fine ↦ elim (Bool-cases (incoming.schema == schema_version)) [
      | inr bad ↦ absurd (cc (rw (fine, bad) at e))
      | inl also ↦
          let (sessions, absorbed, e') =
            >>=-eq-ok (absorb_all base.sessions incoming.sessions) _ (rw (fine, also) at e) in
          let (closed, done, same) =
            >>=-eq-ok (close_sessions (sort_by session_before sessions)) _ e' in
          (sessions, closed, absorbed, done, cc)
    ]
  ]
