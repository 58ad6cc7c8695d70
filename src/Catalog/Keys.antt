-- ===== src/Catalog/Keys.antt =====
-- How many records of a session a catalog holds, for `merge_catalogs` of src/catalog.rs.
use agent_transcript.Prelude.{
  ◌≤◌, Bytes, bytes_eq, bytes_eq_iff, ◌≡◌, arith, Bool, false, ◌&&◌, List, [], ◌∷◌, count,
  count-sort_by, sort_by, inl, inr,
}
use agent_transcript.Catalog.Steps.{
  absorb-cons, absorb_all-cons, close_sessions-cons, merge_catalogs_steps,
}
use agent_transcript.Harness.{Harness}
use agent_transcript.Errors.{ok}
use agent_transcript.Catalog.{
  SessionRecord, Catalog, absorb, absorb_all, session_before, close_sessions, merge_catalogs,
}

module _ {H : Type 0} ⦃h : Harness H⦄ (harness : H) (id : Bytes) where
  abbrev pub is_record : SessionRecord H → Bool
  is_record s = h.beq s.harness harness && bytes_eq s.session_id id

  absorb-count_other :
      (s : SessionRecord H) (sessions : List (SessionRecord H)) {result : List (SessionRecord H)}
      → absorb s sessions ≡ ok result
      → is_record s ≡ false
      → count is_record result ≡ count is_record sessions
  absorb-count_other s [] e n = unfold absorb in ground arith
  absorb-count_other s (existing ∷ sessions) e n = elim (absorb-cons s existing sessions e) [
    | inl (found, _, same) ↦ ground arith
    | inr (other, (rest, absorbed, same)) ↦ ground (arith, absorb-count_other s sessions absorbed)
  ]

  absorb-count :
      (s : SessionRecord H) (sessions : List (SessionRecord H)) {result : List (SessionRecord H)}
      → absorb s sessions ≡ ok result
      → count is_record sessions ≤ 1
      → count is_record result ≤ 1
  absorb-count s [] e c = unfold absorb in ground arith
  absorb-count s (existing ∷ sessions) e c = elim (absorb-cons s existing sessions e) [
    | inl (found, _, same) ↦ ground arith
    | inr (other, (rest, absorbed, same)) ↦ ground (
      arith,
      absorb-count s sessions absorbed,
      absorb-count_other s sessions absorbed,
      h.beq_iff existing.harness harness,
      h.beq_iff s.harness harness,
      h.beq_iff existing.harness s.harness,
      bytes_eq_iff existing.session_id id,
      bytes_eq_iff s.session_id id,
      bytes_eq_iff existing.session_id s.session_id,
    )
  ]

  absorb_all-count :
      (sessions incoming : List (SessionRecord H)) {result : List (SessionRecord H)}
      → absorb_all sessions incoming ≡ ok result
      → count is_record sessions ≤ 1
      → count is_record result ≤ 1
  absorb_all-count sessions [] e c = unfold absorb_all in ground arith
  absorb_all-count sessions (s ∷ incoming) e c =
      let (next, absorbed, e') = absorb_all-cons sessions s incoming e in
      absorb_all-count next incoming e' (absorb-count s sessions absorbed c)

  close_sessions-count :
      (sessions : List (SessionRecord H)) {result : List (SessionRecord H)}
      → close_sessions sessions ≡ ok result
      → count is_record result ≡ count is_record sessions
  close_sessions-count [] e = unfold close_sessions in ground arith
  close_sessions-count (s ∷ sessions) e =
      let (rest, closed, same, _) = close_sessions-cons s sessions e in
      ground (arith, close_sessions-count sessions closed)

  -- If the base catalog has at most one record of a session, so has the merged one, however often the
  -- incoming catalog names the session.
  pub merge_catalogs_unique :
      (base incoming merged : Catalog H)
      → merge_catalogs base incoming ≡ ok merged
      → count is_record base.sessions ≤ 1
      → count is_record merged.sessions ≤ 1
  merge_catalogs_unique base incoming merged e c =
      let (sessions, closed, absorbed, done, same) = merge_catalogs_steps base incoming e in
      ground (
        arith,
        absorb_all-count base.sessions incoming.sessions absorbed c,
        close_sessions-count (sort_by session_before sessions) done,
        count-sort_by session_before is_record sessions,
      )
