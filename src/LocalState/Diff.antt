-- ===== src/LocalState/Diff.antt =====
-- src/local_state.rs: `diff`, which compares the records with the listing of every site, and `grouped`.
pub mod Preserved
pub mod Valid
pub mod Owned
pub mod Noted
pub mod Again
pub mod Cached
use agent_transcript.Prelude.{
  ℕ, zero, suc, ◌+◌, Bytes, codes, bytes_eq, starts_with, Bool, true, false, not, ◌&&◌, ◌||◌,
  Option, none, some, List, [], ◌∷◌, ◌++◌, length, ltb, ◌==◌, if◌then◌else◌, lookup, map_insert,
  set_insert, set_extend, set_has, keep_if, any, strip_prefix,
}
use agent_transcript.Harness.{Harness}
use agent_transcript.Errors.{Error, Result, ok, err}
use agent_transcript.Fragment.{split_once, rsplit_once, is_empty}
use agent_transcript.Walk.{TreeRow, walk_tree}
use agent_transcript.Sources.{
  Site, Discovery, Kind, matches_file, is_dir_marker, join_rel, row_fingerprint, dir_fingerprint,
  rows_under, mtime_datetime, db_fingerprint, discover, owns,
}
use agent_transcript.LocalState.{
  SourceRecord, LocalStore, Report, World, SessionRepo, is_pending, sources_of, complain,
  site_failed, is_some,
}
use agent_transcript.LocalState.Reload.{source_key, resolve_repo, reload, reconsider}

-- One source that a scan finds, as it is passed to `reconsider`.
pub record Found : Type 0 where
  pub source : Bytes
  pub fingerprint : Bytes
  pub updated_at : Option ℕ

unfoldable pub max_mtime : List TreeRow → Option ℕ
max_mtime [] = none
max_mtime (r ∷ rows) = elim (max_mtime rows) [
  | none ↦ some r.mtime_ns
  | some m ↦ some (if ltb m r.mtime_ns then r.mtime_ns else m)
]

unfoldable pub marked_dirs : Kind → List TreeRow → List Bytes → List Bytes
marked_dirs kind [] dirs = dirs
marked_dirs kind (r ∷ rows) dirs = elim (rsplit_once b'/' r.rel) [
  | none ↦ marked_dirs kind rows dirs
  | some (parent, name) ↦
      marked_dirs kind rows
        (if is_dir_marker kind parent name then set_insert parent dirs else dirs)
]

abbrev pub later : ℕ → Option ℕ → Option ℕ
later unix_epoch none = none
later unix_epoch (some mtime) = some (mtime_datetime unix_epoch mtime)

unfoldable pub db_found : List Discovery → List Found
db_found [] = []
db_found (d ∷ found) =
    record { source = d.source; fingerprint = d.fingerprint; updated_at = none } ∷ db_found found

-- The test of `drop_unseen`'s `retain`.
unfoldable pub is_kept : (prefix root : Bytes) → List Bytes → Bytes → Bool
is_kept prefix root seen key = elim (strip_prefix prefix key) [
  | none ↦ true
  | some rest ↦ not (starts_with rest root) || set_has key seen
]

abbrev pub is_repo_of : Option Bytes → List Bytes
is_repo_of none = []
is_repo_of (some k) = k ∷ []

unfoldable pub same_db : Option Bytes → Bytes → Bool
same_db none fingerprint = false
same_db (some f) fingerprint = bytes_eq f fingerprint

module _ {H : Type 0} where
  -- The repositories of the records that a `retain` removes, when `noted` holds of their key.
  unfoldable pub removed_repos :
      (kept noted : Bytes → Bool) → List (Bytes × SourceRecord H) → List Bytes
  removed_repos kept noted [] = []
  removed_repos kept noted ((k, r) ∷ m) =
      let rest = removed_repos kept noted m in
      if not (kept k) && noted k then is_repo_of r.repo_key ++ rest else rest

  -- A `retain` on the records, with what is done when it removed any.
  unfoldable pub retain : (kept noted : Bytes → Bool) → LocalStore H → LocalStore H
  unfolding sources_of removed_repos
  retain kept noted s =
      let sources = keep_if (λ e. kept e.0) (sources_of s) in
      let s1 = record s { state = record s.state { sources = sources } } in
      if length sources == length (sources_of s) then s1 else record s1 {
        report = record s1.report {
          changed_repos =
              set_extend (removed_repos kept noted (sources_of s)) s1.report.changed_repos;
        };
        dirty = true;
      }

  pub pending_keys : List (Bytes × SourceRecord H) → List Bytes
  pending_keys [] = []
  pending_keys ((k, r) ∷ m) =
      let rest = pending_keys m in if is_pending r.state then k ∷ rest else rest

  abbrev pub fresh_report : LocalStore H → LocalStore H
  fresh_report s = record s {
    report = record { loaded = 0; missing_cwd = 0; changed_repos = []; failures = [] };
  }

  unfoldable pub note_db : Bytes → Bytes → LocalStore H → LocalStore H
  note_db site_key fingerprint s = record s {
    state = record s.state {
      db_fingerprints = map_insert site_key fingerprint s.state.db_fingerprints;
    };
    dirty = true;
  }

module _ {H : Type 0} ⦃h : Harness H⦄ where
  unfoldable pub seen_keys : H → List Found → List Bytes
  unfolding source_key
  seen_keys harness [] = []
  seen_keys harness (f ∷ found) = source_key harness f.source ∷ seen_keys harness found

  unfoldable pub drop_unseen : H → (root : Bytes) → List Bytes → LocalStore H → LocalStore H
  unfolding retain is_kept
  drop_unseen harness root seen =
      retain (is_kept (h.as_str harness ++ 10 ∷ []) root seen) (λ k. true)

module _ {H T : Type 0} ⦃h : Harness H⦄ where
  -- The sources of a site of files.
  unfoldable pub files_found : World H T → Site H T → (rows listed : List TreeRow) → List Found
  files_found w site rows [] = []
  files_found w site rows (r ∷ listed) =
      let rest = files_found w site rows listed in
      if matches_file site.kind r.rel
      then record {
        source = join_rel site.path r.rel;
        fingerprint = row_fingerprint w.content.sha256_hex site.kind rows r;
        updated_at = some (mtime_datetime w.unix_epoch r.mtime_ns);
      }
        ∷ rest
      else rest

  unfoldable pub dirs_found : World H T → Site H T → List TreeRow → List Bytes → List Found
  dirs_found w site rows [] = []
  dirs_found w site rows (dir ∷ dirs) =
      let members = rows_under dir rows in
      record {
        source = join_rel site.path dir;
        fingerprint = dir_fingerprint w.content.sha256_hex members;
        updated_at = later w.unix_epoch (max_mtime members);
      }
      ∷ dirs_found w site rows dirs

  -- The loop that passes each source to `reconsider`.
  unfoldable pub reconsider_all : World H T → H → List Found → LocalStore H → LocalStore H
  unfolding reconsider
  reconsider_all w harness [] s = s
  reconsider_all w harness (f ∷ found) s =
      reconsider_all w harness found (reconsider w harness f.source f.fingerprint f.updated_at s)

  -- What the three scans share: the loop, then `drop_unseen` of the site's root.
  unfoldable pub scan_found : World H T → Site H T → List Found → LocalStore H → LocalStore H
  unfolding reconsider_all drop_unseen seen_keys
  scan_found w site found s =
      drop_unseen site.harness site.path (seen_keys site.harness found)
        (reconsider_all w site.harness found s)

  unfoldable pub files_of : World H T → Site H T → List Found
  unfolding files_found
  files_of w site = let rows = walk_tree w.entries_of site.path in files_found w site rows rows

  unfoldable pub scan_files : World H T → Site H T → LocalStore H → LocalStore H
  unfolding scan_found files_of
  scan_files w site = scan_found w site (files_of w site)

  unfoldable pub dirs_of : World H T → Site H T → List Found
  unfolding dirs_found marked_dirs
  dirs_of w site =
      let rows = walk_tree w.entries_of site.path in
      dirs_found w site rows (marked_dirs site.kind rows [])

  unfoldable pub scan_session_dirs : World H T → Site H T → LocalStore H → LocalStore H
  unfolding scan_found dirs_of
  scan_session_dirs w site = scan_found w site (dirs_of w site)

  -- The error is beside the store, which the code leaves as it was then.
  unfoldable pub scan_db : World H T → Site H T → LocalStore H → Result (Unit {0}) × LocalStore H
  unfolding scan_found db_found same_db note_db
  scan_db w site s =
      let fingerprint = db_fingerprint w.stat site.path in
      if same_db (lookup site.path s.state.db_fingerprints) fingerprint
      then (ok tt, s)
      else elim (discover site) [
        | err e ↦ (err e, s)
        | ok found ↦ (ok tt, note_db site.path fingerprint (scan_found w site (db_found found) s))
      ]

  -- `if let Err(error) = self.scan_db(site)`
  unfoldable pub note_failure : Site H T → Result (Unit {0}) × LocalStore H → LocalStore H
  note_failure site (err e, s) = complain (site_failed site.harness site.path e) s
  note_failure site (ok done, s) = s

  -- The match on the kind of a site.
  unfoldable pub scan_kind : World H T → Site H T → Kind → LocalStore H → LocalStore H
  unfolding scan_files scan_session_dirs scan_db note_failure
  scan_kind w site (Kind.files rule exclude_dirs) s = scan_files w site s
  scan_kind w site (Kind.session_dirs markers) s = scan_session_dirs w site s
  scan_kind w site Kind.grok_bot_dirs s = scan_session_dirs w site s
  scan_kind w site Kind.db s = note_failure site (scan_db w site s)

  unfoldable pub scan_sites : World H T → List (Site H T) → LocalStore H → LocalStore H
  unfolding scan_kind
  scan_sites w [] s = s
  scan_sites w (site ∷ sites) s = scan_sites w sites (scan_kind w site site.kind s)

  unfoldable pub is_covered : List (Site H T) → Bytes → Bool
  is_covered sites key = elim (split_once 10 key) [
    | none ↦ false
    | some (harness, source) ↦
        any (λ site. bytes_eq (h.as_str site.harness) harness && owns site source) sites
  ]

  unfoldable pub drop_unowned : List (Site H T) → LocalStore H → LocalStore H
  unfolding retain is_covered
  drop_unowned sites = retain (is_covered sites) (λ key. is_some (split_once 10 key))

  unfoldable pub retry_if : World H T → SourceRecord H → SessionRepo × LocalStore H → LocalStore H
  unfolding reload
  retry_if w r (SessionRepo.key k, s) =
      reload w r.harness r.source r.fingerprint r.freshness.updated_at s
  retry_if w r (SessionRepo.missing_cwd, s) = s
  retry_if w r (SessionRepo.unresolved e, s) = s

  unfoldable pub retry_all : World H T → List Bytes → LocalStore H → LocalStore H
  unfolding retry_if resolve_repo sources_of
  retry_all w [] s = s
  retry_all w (k ∷ keys) s = retry_all w keys (elim (lookup k (sources_of s)) [
    | none ↦ s
    | some r ↦ retry_if w r (resolve_repo w r.info.cwd s)
  ])

  unfoldable pub resolve_pending : World H T → LocalStore H → LocalStore H
  unfolding retry_all pending_keys sources_of
  resolve_pending w s = retry_all w (pending_keys (sources_of s)) s

  unfoldable pub diff : World H T → LocalStore H → LocalStore H
  unfolding scan_sites drop_unowned resolve_pending
  diff w s = resolve_pending w (drop_unowned w.sites (scan_sites w w.sites (fresh_report s)))
