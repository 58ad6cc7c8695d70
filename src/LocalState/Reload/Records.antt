-- ===== src/LocalState/Reload/Records.antt =====
-- src/local_state.rs: the records and the changed repositories across the steps of `reload`.
use agent_transcript.Prelude.{
  Bytes, bytes_eq_refl, ◌≡◌, refl, ap, ◌∙◌, inl, inr, Bool, true, false, Option, none, some, List,
  lookup, map_insert, set_insert, set_has, set_has-set_insert, if◌then◌else◌, Bool-cases,
  Option-cases, arith,
}
use agent_transcript.Harness.{Harness}
use agent_transcript.Fragment.{is_empty}
use agent_transcript.RepoId.{normalize_cwd}
use agent_transcript.LocalState.{
  LocalStore, World, SourceRecord, SessionRepo, complain, empty_id, sources_of, is_usable, is_ready,
}
use agent_transcript.LocalState.Reload.{
  source_key, resolve_afresh, resolve_directory, resolve_repo, report_repo, note_changed,
  keep_record, accept,
}

module _ {H : Type 0} where
  -- `s'` knows at least the changed repositories of `s`.
  abbrev pub Knows : LocalStore H → LocalStore H → Type 0
  Knows s s' =
      (k : Bytes)
      → set_has k s.report.changed_repos ≡ true
      → set_has k s'.report.changed_repos ≡ true

  -- The records and the changed repositories are those of before.
  abbrev pub SameRecords : LocalStore H → LocalStore H → Type 0
  SameRecords s s' =
      (sources_of s' ≡ sources_of s) × (s'.report.changed_repos ≡ s.report.changed_repos)

module _ {H T : Type 0} ⦃h : Harness H⦄ (w : World H T) where
  resolve_directory-SameRecords :
      (dir : Bytes) (s : LocalStore H) → SameRecords s (resolve_directory w dir s).1
  unfolding resolve_directory sources_of resolve_afresh
  resolve_directory-SameRecords dir s = elim (Option-cases (lookup dir s.state.repos)) [
    | inl e ↦ rw (resolve_directory, e) (refl, refl)
    | inr (entry, e) ↦ elim (Bool-cases (is_usable w.now entry)) [
      | inl usable ↦ rw (resolve_directory, e, usable) (refl, refl)
      | inr usable ↦ rw (resolve_directory, e, usable) (refl, refl)
    ]
  ]

  pub resolve_repo-SameRecords :
      (cwd : Option Bytes) (s : LocalStore H) → SameRecords s (resolve_repo w cwd s).1
  unfolding resolve_repo sources_of
  resolve_repo-SameRecords none s = (refl, refl)
  resolve_repo-SameRecords (some cwd) s = elim (Bool-cases (is_empty cwd)) [
    | inl e ↦ rw (resolve_repo, e) (refl, refl)
    | inr e ↦ elim (Bool-cases (w.is_dir (normalize_cwd w.file_path cwd))) [
      | inl d ↦
          rw (resolve_repo, e, d) (resolve_directory-SameRecords (normalize_cwd w.file_path cwd) s)
      | inr d ↦ rw (resolve_repo, e, d) (refl, refl)
    ]
  ]

-- The changed repositories after the record of a body was accepted.
pub noted_by : Bool → Option Bytes → List Bytes → List Bytes
noted_by true (some k) changed = set_insert k changed
noted_by true none changed = changed
noted_by false repo_key changed = changed

pub noted_by-has :
    (state : Bool) (repo_key : Option Bytes) (changed : List Bytes) (k : Bytes)
    → state ≡ true
    → repo_key ≡ some k
    → set_has k (noted_by state repo_key changed) ≡ true
unfolding noted_by
noted_by-has true (some j) changed k e f =
    rw (set_has-set_insert k j changed) (ground (arith, f, bytes_eq_refl k))
noted_by-has true none changed k e f = absurd (cc)
noted_by-has false repo_key changed k e f = absurd (cc)

pub noted_by-knows :
    (state : Bool) (repo_key : Option Bytes) (changed : List Bytes) (k : Bytes)
    → set_has k changed ≡ true
    → set_has k (noted_by state repo_key changed) ≡ true
unfolding noted_by
noted_by-knows true (some j) changed k e = rw (set_has-set_insert k j changed, e) (ground arith)
noted_by-knows true none changed k e = e
noted_by-knows false repo_key changed k e = e

module _ {H : Type 0} where
  pub report_repo-SameRecords :
      (harness : H) (source : Bytes) (already_pending : Bool) (repo : SessionRepo)
      (s : LocalStore H)
      → SameRecords s (report_repo harness source already_pending repo s)
  unfolding report_repo sources_of
  report_repo-SameRecords harness source already_pending (SessionRepo.key k) s = (refl, refl)
  report_repo-SameRecords harness source true SessionRepo.missing_cwd s = (refl, refl)
  report_repo-SameRecords harness source false SessionRepo.missing_cwd s = (refl, refl)
  report_repo-SameRecords harness source true (SessionRepo.unresolved e) s = (refl, refl)
  report_repo-SameRecords harness source false (SessionRepo.unresolved e) s = (refl, refl)

  pub if-holds :
      (P : LocalStore H → Type 0) (b : Bool) (x y : LocalStore H)
      → P x
      → P y
      → P (if b then x else y)
  if-holds P true x y p q = p
  if-holds P false x y p q = q

  note_if-sources :
      (b : Bool) (repo_key : Option Bytes) (s : LocalStore H)
      → sources_of (if b then note_changed repo_key s else s) ≡ sources_of s
  unfolding note_changed sources_of
  note_if-sources true (some k) s = refl
  note_if-sources true none s = refl
  note_if-sources false repo_key s = refl

  note_if-changed :
      (b : Bool) (repo_key : Option Bytes) (s : LocalStore H)
      → (if b then note_changed repo_key s else s).report.changed_repos
        ≡ noted_by b repo_key s.report.changed_repos
  unfolding note_changed noted_by
  note_if-changed true (some k) s = refl
  note_if-changed true none s = refl
  note_if-changed false repo_key s = refl

module _ {H : Type 0} ⦃h : Harness H⦄ (harness : H) (source : Bytes) (r : SourceRecord H)
    (s : LocalStore H) where
  -- The store after the complaint about an empty id.
  complained : LocalStore H
  complained = if is_empty r.session_id then complain (empty_id harness source) s else s

  complained-SameRecords : SameRecords s complained
  unfolding complained sources_of
  complained-SameRecords =
      if-holds (SameRecords s) (is_empty r.session_id) (complain (empty_id harness source) s) s
        (refl, refl) (refl, refl)

  pub accept-sources :
      sources_of (accept harness source r s)
      ≡ map_insert (source_key harness source) r (sources_of s)
  unfolding accept keep_record sources_of complained
  accept-sources =
      ap (map_insert (source_key harness source) r)
        (note_if-sources (is_ready r.state) r.repo_key complained ∙ complained-SameRecords.0)

  pub accept-changed :
      (accept harness source r s).report.changed_repos
      ≡ noted_by (is_ready r.state) r.repo_key s.report.changed_repos
  unfolding accept keep_record complained
  accept-changed =
      note_if-changed (is_ready r.state) r.repo_key complained
      ∙ ap (noted_by (is_ready r.state) r.repo_key) complained-SameRecords.1
