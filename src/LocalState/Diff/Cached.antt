-- ===== src/LocalState/Diff/Cached.antt =====
-- src/local_state.rs: the fingerprint of a database and the answer about a directory, both kept in
-- the store.
use agent_transcript.Prelude.{
  ℕ, ◌+◌, ◌<◌, Bytes, bytes_eq_refl, ◌≡◌, refl, sym, ap, ◌∙◌, subst, inl, inr, true, lt→ltb, some,
  lookup, lookup-map_insert, Bool-cases,
}
use agent_transcript.Harness.{Harness}
use agent_transcript.Errors.{ok, err, Result-cases}
use agent_transcript.RepoId.{RepoResolution, key, no_origin, failed, resolution_of}
use agent_transcript.Sources.{Site, discover, db_fingerprint}
use agent_transcript.LocalState.{
  LocalStore, World, RepoEntry, is_usable, entry_of, resolution, repo_retry,
}
use agent_transcript.LocalState.Reload.{resolve_afresh, resolve_directory}
use agent_transcript.LocalState.Diff.{scan_found, scan_db, db_found, same_db, note_db}

module _ {H T : Type 0} ⦃h : Harness H⦄ (w : World H T) (site : Site H T) where
  scan_db_same :
      (s : LocalStore H)
      → same_db (lookup site.path s.state.db_fingerprints) (db_fingerprint w.stat site.path) ≡ true
      → scan_db w site s ≡ (ok tt, s)
  unfolding scan_db
  scan_db_same s e = rw (scan_db, e) refl

  -- A scan that returns no error ends in a store with the fingerprint of the database.
  scan_db-same_db :
      (s : LocalStore H)
      → (scan_db w site s).0 ≡ ok tt
      → (s' : LocalStore H) × (scan_db w site s ≡ (ok tt, s'))
        × (same_db (lookup site.path s'.state.db_fingerprints) (db_fingerprint w.stat site.path)
            ≡ true)
  unfolding scan_db same_db note_db
  scan_db-same_db s done =
      let fingerprint = db_fingerprint w.stat site.path in
      elim (Bool-cases (same_db (lookup site.path s.state.db_fingerprints) fingerprint)) [
        | inl e ↦ (s, scan_db_same s e, e)
        | inr e ↦ elim (Result-cases (discover site)) [
          | inl (found, d) ↦
              let scanned = scan_found w site (db_found found) s in
              (
                note_db site.path fingerprint scanned,
                rw (scan_db, e, d) refl,
                rw (lookup-map_insert site.path fingerprint scanned.state.db_fingerprints)
                    (bytes_eq_refl fingerprint),
              )
          | inr (failure, d) ↦
              let failed : scan_db w site s ≡ (err failure, s) = rw (scan_db, e, d) refl in
              absurd (cc)
        ]
      ]

  -- After a scan of a database that returns no error, the next one with the same fingerprint changes
  -- nothing and reads nothing, also when a load failed transiently.
  pub scan_db_again :
      (s : LocalStore H)
      → (scan_db w site s).0 ≡ ok tt
      → scan_db w site (scan_db w site s).1 ≡ (ok tt, (scan_db w site s).1)
  scan_db_again s done =
      let (s', e, same) = scan_db-same_db s done in
      subst (λ answer. scan_db w site answer.1 ≡ (ok tt, answer.1)) (sym e) (scan_db_same s' same)

resolution-entry_of : (now : ℕ) (r : RepoResolution) → resolution (entry_of now r) ≡ r
unfolding resolution entry_of
resolution-entry_of now (key k) = refl
resolution-entry_of now no_origin = refl
resolution-entry_of now (failed e) = refl

entry_of_usable :
    (now later : ℕ) (r : RepoResolution)
    → later < now + repo_retry
    → is_usable later (entry_of now r) ≡ true
unfolding is_usable entry_of
entry_of_usable now later (key k) lt = refl
entry_of_usable now later no_origin lt = lt→ltb later (now + repo_retry) lt
entry_of_usable now later (failed e) lt = lt→ltb later (now + repo_retry) lt

module _ {H T : Type 0} ⦃h : Harness H⦄ (w : World H T) where
  resolve_directory_cached :
      (dir : Bytes) (s : LocalStore H) (e : RepoEntry)
      → lookup dir s.state.repos ≡ some e
      → is_usable w.now e ≡ true
      → resolve_directory w dir s ≡ (resolution e, s)
  unfolding resolve_directory
  resolve_directory_cached dir s e found usable = rw (resolve_directory, found, usable) refl

  -- What git said of a directory is answered again from the store until the retry is due.
  pub resolve_directory-resolve_afresh :
      (before : World H T) (dir : Bytes) (s : LocalStore H)
      → w.now < before.now + repo_retry
      → resolve_directory w dir (resolve_afresh before dir s).1 ≡ resolve_afresh before dir s
  unfolding resolve_afresh
  resolve_directory-resolve_afresh before dir s lt =
      let r = resolution_of (before.origin_of dir) in
      resolve_directory_cached dir (resolve_afresh before dir s).1 (entry_of before.now r)
        (lookup-map_insert dir (entry_of before.now r) s.state.repos)
        (entry_of_usable before.now w.now r lt)
      ∙ ap (λ x. (x, (resolve_afresh before dir s).1)) (resolution-entry_of before.now r)
