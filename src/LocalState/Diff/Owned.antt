-- ===== src/LocalState/Diff/Owned.antt =====
-- src/local_state.rs: the records that `drop_unowned` keeps, and the retries behind it.
use agent_transcript.Prelude.{
  Bytes, ◌≡◌, sym, subst, inl, inr, true, List, [], ◌∷◌, lookup, Option-cases, All, All-map,
  All-lookup, keep_if-All,
}
use agent_transcript.Harness.{Harness}
use agent_transcript.Fragment.{split_once}
use agent_transcript.LocalState.{LocalStore, World, SourceRecord, SessionRepo, sources_of, is_some}
use agent_transcript.LocalState.Reload.{resolve_repo}
use agent_transcript.LocalState.Reload.Records.{resolve_repo-SameRecords}
use agent_transcript.LocalState.Diff.{
  diff, drop_unowned, resolve_pending, retry_if, retry_all, fresh_report, is_covered, scan_sites,
  pending_keys,
}
use agent_transcript.LocalState.Diff.Preserved.{scan_sites-preserves}
use agent_transcript.LocalState.Diff.Valid.{
  IsRecord, IsValid, IsValid-steps, sources-retain, reload-All, Stored-IsRecord,
}

module _ {H T : Type 0} ⦃h : Harness H⦄ (w : World H T) where
  -- A record of the invariant whose source some site owns.
  abbrev IsOwned : Bytes × SourceRecord H → Type 0
  IsOwned e = IsRecord e × (is_covered w.sites e.0 ≡ true)

  abbrev AllOwned : LocalStore H → Type 0
  AllOwned s = All IsOwned (sources_of s)

  drop_unowned-AllOwned : (s : LocalStore H) → IsValid s → AllOwned (drop_unowned w.sites s)
  unfolding drop_unowned
  drop_unowned-AllOwned s valid =
      subst (All IsOwned)
        (sym (sources-retain (is_covered w.sites) (λ k. is_some (split_once 10 k)) s))
        (keep_if-All IsRecord (λ e. is_covered w.sites e.0) (sources_of s) valid)

  retry_if-AllOwned :
      (k : Bytes) (r : SourceRecord H) (answer : SessionRepo × LocalStore H)
      → IsOwned (k, r)
      → AllOwned answer.1
      → AllOwned (retry_if w r answer)
  unfolding retry_if
  retry_if-AllOwned k r (SessionRepo.key repo, s) (valid, covered) owned =
      reload-All w IsOwned r.harness r.source r.fingerprint r.freshness.updated_at s
        (λ s' new. (
          Stored-IsRecord _ _ _ s s' new,
          subst (λ x. is_covered w.sites x ≡ true) valid.0 covered,
        ))
        owned
  retry_if-AllOwned k r (SessionRepo.missing_cwd, s) held owned = owned
  retry_if-AllOwned k r (SessionRepo.unresolved e, s) held owned = owned

  retry_all-AllOwned :
      (keys : List Bytes) (s : LocalStore H) → AllOwned s → AllOwned (retry_all w keys s)
  unfolding retry_all
  retry_all-AllOwned [] s owned = owned
  retry_all-AllOwned (k ∷ keys) s owned = elim (Option-cases (lookup k (sources_of s))) [
    | inl e ↦ rw (retry_all, e) (retry_all-AllOwned keys s owned)
    | inr (r, e) ↦
        rw (retry_all, e)
          (retry_all-AllOwned keys (retry_if w r (resolve_repo w r.info.cwd s)) (
            retry_if-AllOwned k r (resolve_repo w r.info.cwd s)
              (All-lookup IsOwned k r (sources_of s) e owned)
              (subst (All IsOwned) (sym (resolve_repo-SameRecords w r.info.cwd s).0) owned)))
  ]

  -- After a diff of a valid store, every record's source is owned by a site of its harness.
  pub diff-IsCovered :
      (s : LocalStore H)
      → IsValid s
      → All (λ e. is_covered w.sites e.0 ≡ true) (sources_of (diff w s))
  unfolding diff resolve_pending sources_of
  diff-IsCovered s valid =
      let scanned = scan_sites w w.sites (fresh_report s) in
      All-map (λ e owned. owned.1) (sources_of (diff w s))
        (retry_all-AllOwned (pending_keys (sources_of (drop_unowned w.sites scanned)))
          (drop_unowned w.sites scanned)
          (drop_unowned-AllOwned scanned
            (scan_sites-preserves w IsValid (IsValid-steps w) w.sites (fresh_report s) valid)))
