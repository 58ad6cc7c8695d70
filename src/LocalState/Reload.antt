-- ===== src/LocalState/Reload.antt =====
-- src/local_state.rs: `resolve_directory`, `resolve_repo`, `reload` and `reconsider`.
pub mod Effect
pub mod Records
use agent_transcript.Prelude.{
  ℕ, suc, ◌+◌, Bytes, codes, bytes_eq, Bool, true, false, not, ◌&&◌, ◌||◌, Option, none, some, List,
  [], ◌∷◌, ◌++◌, if◌then◌else◌, lookup, map_insert, set_insert,
}
use agent_transcript.Harness.{Harness}
use agent_transcript.Errors.{Error, Result, ok, err}
use agent_transcript.Freshness.{Freshness, Info}
use agent_transcript.Document.{Transcript, of_body, new_document, content_hash}
use agent_transcript.Fragment.{is_empty}
use agent_transcript.RepoId.{RepoResolution, resolution_of, normalize_cwd, unwrap_or}
use agent_transcript.Sources.{Failure, transient, broken, read, load}
use agent_transcript.LocalState.{
  RecordState, ready, pending, SourceRecord, LocalStore, Report, World, entry_of, resolution,
  is_usable, SessionRepo, key, missing_cwd, unresolved, session_repo_of, is_pending, is_ready,
  sources_of, with_sources, complain, no_repository, empty_id, not_now, unreadable,
}

-- `Info` of a record whose body cannot be read.
unfoldable pub no_info : ℕ → Info
no_info now = record { started_at = now; title = none; cwd = none; git_branch = none; model = none }

-- `unwrap_or_default`
abbrev hash_or_default : Result Bytes → Bytes
hash_or_default (err e) = []
hash_or_default (ok hash) = hash

-- The part of the match in `reload` that a resolved repository decides: its key, the hash, the state.
unfoldable pub placed : (Bytes → Result Bytes) → SessionRepo → Option Bytes × Bytes × RecordState
placed content_hash (key k) = (some k, hash_or_default (content_hash k), ready)
placed content_hash missing_cwd = (none, [], pending)
placed content_hash (unresolved e) = (none, [], pending)

module _ {H : Type 0} where
  -- What `reload` reports of a session whose repository is not known.
  unfoldable pub report_repo :
      H → Bytes → (already_pending : Bool) → SessionRepo → LocalStore H → LocalStore H
  report_repo harness source already_pending (key k) s = s
  report_repo harness source already_pending missing_cwd s =
      if already_pending
      then s
      else record s { report = record s.report { missing_cwd = s.report.missing_cwd + 1 } }
  report_repo harness source already_pending (unresolved e) s =
      if already_pending then s else complain (no_repository harness source e) s

  unfoldable pub note_changed : Option Bytes → LocalStore H → LocalStore H
  note_changed none s = s
  note_changed (some k) s = record s {
    report = record s.report { changed_repos = set_insert k s.report.changed_repos };
  }

  unfoldable pub keep_record : Bytes → SourceRecord H → LocalStore H → LocalStore H
  unfolding sources_of
  keep_record at r s = with_sources (map_insert at r (sources_of s)) s

  unfoldable pub was_pending : Option (SourceRecord H) → Bytes → Bool
  was_pending none fingerprint = false
  was_pending (some r) fingerprint = is_pending r.state && bytes_eq r.fingerprint fingerprint

  unfoldable pub is_current : Option (SourceRecord H) → Bytes → Bool
  is_current none fingerprint = false
  is_current (some r) fingerprint = bytes_eq r.fingerprint fingerprint

module _ {H : Type 0} ⦃h : Harness H⦄ where
  -- `source_key`
  unfoldable pub source_key : H → Bytes → Bytes
  source_key harness source = h.as_str harness ++ 10 ∷ source

  -- The rest of the arm for a body that was read.
  unfoldable pub accept : H → Bytes → SourceRecord H → LocalStore H → LocalStore H
  unfolding note_changed keep_record
  accept harness source r s =
      let s1 = if is_empty r.session_id then complain (empty_id harness source) s else s in
      let s2 = if is_ready r.state then note_changed r.repo_key s1 else s1 in
      let s3 = keep_record (source_key harness source) r s2 in
      record s3 { report = record s3.report { loaded = s3.report.loaded + 1 } }

module _ {H T : Type 0} ⦃h : Harness H⦄ where
  -- The outcome of `repo_id::origin_of`, kept in the cache.
  unfoldable pub resolve_afresh : World H T → Bytes → LocalStore H → RepoResolution × LocalStore H
  resolve_afresh w dir s =
      let r = resolution_of (w.origin_of dir) in
      (
        r,
        record s {
          state = record s.state { repos = map_insert dir (entry_of w.now r) s.state.repos };
          dirty = true;
        },
      )

  unfoldable pub resolve_directory :
      World H T → Bytes → LocalStore H → RepoResolution × LocalStore H
  unfolding resolve_afresh
  resolve_directory w dir s = elim (lookup dir s.state.repos) [
    | none ↦ resolve_afresh w dir s
    | some e ↦ if is_usable w.now e then (resolution e, s) else resolve_afresh w dir s
  ]

  unfoldable pub resolve_repo : World H T → Option Bytes → LocalStore H → SessionRepo × LocalStore H
  unfolding resolve_directory
  resolve_repo w none s = (missing_cwd, s)
  resolve_repo w (some cwd) s =
      let dir = normalize_cwd w.file_path cwd in
      let (r, s') = resolve_directory w dir s in
      if is_empty cwd
      then (missing_cwd, s)
      else if not (w.is_dir dir)
      then (missing_cwd, s)
      else (session_repo_of dir r, s')

  -- The record of a body that was read: an empty id makes it broken.
  unfoldable pub record_of :
      World H T → H → Bytes → Bytes → Option ℕ → T → SessionRepo → SourceRecord H
  unfolding placed of_body content_hash new_document
  record_of w harness source fingerprint updated_at t repo =
      let meta = w.content.transcript t in
      let (repo_key, content_hash, state) =
        placed (λ k. content_hash w.content (new_document harness k t)) repo in
      record {
        harness = harness;
        source = source;
        fingerprint = fingerprint;
        session_id = meta.id;
        repo_key = repo_key;
        state = if is_empty meta.id then RecordState.broken else state;
        freshness = of_body meta.body updated_at content_hash;
        info = meta.info;
      }

  unfoldable pub broken_record : World H T → H → Bytes → Bytes → Option ℕ → SourceRecord H
  unfolding no_info
  broken_record w harness source fingerprint updated_at = record {
    harness = harness;
    source = source;
    fingerprint = fingerprint;
    session_id = [];
    repo_key = none;
    state = RecordState.broken;
    freshness = record {
      updated_at = updated_at;
      last_message_at = none;
      message_count = 0;
      content_hash = [];
    };
    info = no_info w.now;
  }

  unfoldable pub reload : World H T → H → Bytes → Bytes → Option ℕ → LocalStore H → LocalStore H
  unfolding source_key resolve_repo report_repo record_of accept broken_record was_pending
      sources_of keep_record
  reload w harness source fingerprint updated_at s = elim (load w.sites harness source) [
    | read t ↦
        let (repo, s') = resolve_repo w (w.content.transcript t).info.cwd s in
        let already_pending =
          was_pending (lookup (source_key harness source) (sources_of s)) fingerprint in
        accept harness source (record_of w harness source fingerprint updated_at t repo)
          (report_repo harness source already_pending repo s')
    | transient message ↦ complain (not_now harness source message) s
    | broken message ↦ complain (unreadable harness source message) (
        keep_record (source_key harness source)
          (broken_record w harness source fingerprint updated_at) s)
  ]

  unfoldable pub reconsider : World H T → H → Bytes → Bytes → Option ℕ → LocalStore H → LocalStore H
  unfolding source_key reload is_current
  reconsider w harness source fingerprint updated_at s =
      if is_current (lookup (source_key harness source) (sources_of s)) fingerprint
      then s
      else reload w harness source fingerprint updated_at s
