-- ===== src/LocalState/Diff/Preserved.antt =====
-- src/local_state.rs: induction over the steps of `diff`. The steps are a reload of one source, a
-- resolution of one directory, a `retain`, a complaint, and a new database fingerprint.
use agent_transcript.Prelude.{
  ℕ, Bytes, inl, inr, Bool, Option, none, some, List, [], ◌∷◌, lookup, Bool-cases, Option-cases,
}
use agent_transcript.Harness.{Harness}
use agent_transcript.Errors.{Result, ok, err, Result-cases}
use agent_transcript.Fragment.{is_empty, split_once}
use agent_transcript.RepoId.{normalize_cwd}
use agent_transcript.Sources.{Site, Kind, discover, db_fingerprint}
use agent_transcript.LocalState.{
  LocalStore, World, SourceRecord, Complaint, SessionRepo, complain, sources_of, is_usable, is_some,
}
use agent_transcript.LocalState.Reload.{
  source_key, resolve_afresh, resolve_directory, resolve_repo, reload, reconsider, is_current,
}
use agent_transcript.LocalState.Diff.{
  Found, pending_keys, files_of, dirs_of, retain, fresh_report, note_db, same_db, drop_unseen,
  reconsider_all, scan_found, scan_files, scan_session_dirs, scan_db, scan_kind, note_failure,
  scan_sites, drop_unowned, retry_if, retry_all, resolve_pending, diff, db_found, is_covered,
}

module _ {H T : Type 0} ⦃h : Harness H⦄ (w : World H T) where
  pub record IsPreserved (P : LocalStore H → Type 0) : Type 0 where
    pub by_reload :
        (harness : H) (source fingerprint : Bytes) (updated_at : Option ℕ) (s : LocalStore H)
        → P s
        → P (reload w harness source fingerprint updated_at s)
    pub by_resolve : (dir : Bytes) (s : LocalStore H) → P s → P (resolve_afresh w dir s).1
    pub by_retain : (kept noted : Bytes → Bool) (s : LocalStore H) → P s → P (retain kept noted s)
    pub by_complain : (c : Complaint H) (s : LocalStore H) → P s → P (complain c s)
    pub by_note :
        (site_key fingerprint : Bytes) (s : LocalStore H) → P s → P (note_db site_key fingerprint s)

module _ {H T : Type 0} ⦃h : Harness H⦄ (w : World H T) (P : LocalStore H → Type 0)
    (p : IsPreserved w P) where
  pub resolve_directory-preserves :
      (dir : Bytes) (s : LocalStore H) → P s → P (resolve_directory w dir s).1
  unfolding resolve_directory
  resolve_directory-preserves dir s ps = elim (Option-cases (lookup dir s.state.repos)) [
    | inl e ↦ rw (resolve_directory, e) (p.by_resolve dir s ps)
    | inr (entry, e) ↦ elim (Bool-cases (is_usable w.now entry)) [
      | inl usable ↦ rw (resolve_directory, e, usable) ps
      | inr usable ↦ rw (resolve_directory, e, usable) (p.by_resolve dir s ps)
    ]
  ]

  pub resolve_repo-preserves :
      (cwd : Option Bytes) (s : LocalStore H) → P s → P (resolve_repo w cwd s).1
  unfolding resolve_repo
  resolve_repo-preserves none s ps = ps
  resolve_repo-preserves (some cwd) s ps = elim (Bool-cases (is_empty cwd)) [
    | inl e ↦ rw (resolve_repo, e) ps
    | inr e ↦ elim (Bool-cases (w.is_dir (normalize_cwd w.file_path cwd))) [
      | inl d ↦
          rw (resolve_repo, e, d) (resolve_directory-preserves (normalize_cwd w.file_path cwd) s ps)
      | inr d ↦ rw (resolve_repo, e, d) ps
    ]
  ]

  reconsider-preserves :
      (harness : H) (source fingerprint : Bytes) (updated_at : Option ℕ) (s : LocalStore H)
      → P s
      → P (reconsider w harness source fingerprint updated_at s)
  unfolding reconsider
  reconsider-preserves harness source fingerprint updated_at s ps =
      elim (Bool-cases
        (is_current (lookup (source_key harness source) (sources_of s)) fingerprint)) [
          | inl e ↦ rw (reconsider, e) ps
          | inr e ↦ rw (reconsider, e) (p.by_reload harness source fingerprint updated_at s ps)
        ]

  reconsider_all-preserves :
      (harness : H) (found : List Found) (s : LocalStore H)
      → P s
      → P (reconsider_all w harness found s)
  unfolding reconsider_all
  reconsider_all-preserves harness [] s ps = ps
  reconsider_all-preserves harness (f ∷ found) s ps =
      reconsider_all-preserves harness found _
        (reconsider-preserves harness f.source f.fingerprint f.updated_at s ps)

  scan_found-preserves :
      (site : Site H T) (found : List Found) (s : LocalStore H)
      → P s
      → P (scan_found w site found s)
  unfolding scan_found drop_unseen
  scan_found-preserves site found s ps =
      p.by_retain _ _ _ (reconsider_all-preserves site.harness found s ps)

  scan_db-preserves : (site : Site H T) (s : LocalStore H) → P s → P (scan_db w site s).1
  unfolding scan_db
  scan_db-preserves site s ps =
      elim (Bool-cases
        (same_db (lookup site.path s.state.db_fingerprints) (db_fingerprint w.stat site.path))) [
          | inl e ↦ rw (scan_db, e) ps
          | inr e ↦ elim (Result-cases (discover site)) [
            | inl (found, d) ↦
                rw (scan_db, e, d)
                  (p.by_note _ _ _ (scan_found-preserves site (db_found found) s ps))
            | inr (failure, d) ↦ rw (scan_db, e, d) ps
          ]
        ]

  note_failure-preserves :
      (site : Site H T) (answer : Result (Unit {0}) × LocalStore H)
      → P answer.1
      → P (note_failure site answer)
  unfolding note_failure
  note_failure-preserves site (err e, s) ps = p.by_complain _ s ps
  note_failure-preserves site (ok done, s) ps = ps

  scan_kind-preserves :
      (site : Site H T) (kind : Kind) (s : LocalStore H) → P s → P (scan_kind w site kind s)
  unfolding scan_kind scan_files scan_session_dirs
  scan_kind-preserves site (Kind.files rule exclude_dirs) s ps =
      scan_found-preserves site (files_of w site) s ps
  scan_kind-preserves site (Kind.session_dirs markers) s ps =
      scan_found-preserves site (dirs_of w site) s ps
  scan_kind-preserves site Kind.grok_bot_dirs s ps = scan_found-preserves site (dirs_of w site) s ps
  scan_kind-preserves site Kind.db s ps =
      note_failure-preserves site (scan_db w site s) (scan_db-preserves site s ps)

  pub scan_sites-preserves :
      (sites : List (Site H T)) (s : LocalStore H) → P s → P (scan_sites w sites s)
  unfolding scan_sites
  scan_sites-preserves [] s ps = ps
  scan_sites-preserves (site ∷ sites) s ps =
      scan_sites-preserves sites _ (scan_kind-preserves site site.kind s ps)

  retry_if-preserves :
      (r : SourceRecord H) (answer : SessionRepo × LocalStore H)
      → P answer.1
      → P (retry_if w r answer)
  unfolding retry_if
  retry_if-preserves r (SessionRepo.key k, s) ps = p.by_reload _ _ _ _ s ps
  retry_if-preserves r (SessionRepo.missing_cwd, s) ps = ps
  retry_if-preserves r (SessionRepo.unresolved e, s) ps = ps

  retry_all-preserves : (keys : List Bytes) (s : LocalStore H) → P s → P (retry_all w keys s)
  unfolding retry_all
  retry_all-preserves [] s ps = ps
  retry_all-preserves (k ∷ keys) s ps = elim (Option-cases (lookup k (sources_of s))) [
    | inl e ↦ rw (retry_all, e) (retry_all-preserves keys s ps)
    | inr (r, e) ↦
        rw (retry_all, e)
          (retry_all-preserves keys _ (
            retry_if-preserves r (resolve_repo w r.info.cwd s)
              (resolve_repo-preserves r.info.cwd s ps)))
  ]

  pub drop_unowned-preserves : (s : LocalStore H) → P s → P (drop_unowned w.sites s)
  unfolding drop_unowned
  drop_unowned-preserves s ps =
      p.by_retain (is_covered w.sites) (λ k. is_some (split_once 10 k)) s ps

  pub resolve_pending-preserves : (s : LocalStore H) → P s → P (resolve_pending w s)
  unfolding resolve_pending
  resolve_pending-preserves s ps = retry_all-preserves (pending_keys (sources_of s)) s ps

  pub diff-preserves : (s : LocalStore H) → P (fresh_report s) → P (diff w s)
  unfolding diff
  diff-preserves s ps =
      resolve_pending-preserves (drop_unowned w.sites (scan_sites w w.sites (fresh_report s))) (
        drop_unowned-preserves (scan_sites w w.sites (fresh_report s))
          (scan_sites-preserves w.sites (fresh_report s) ps))
