-- ===== src/LocalState.antt =====
-- src/local_state.rs, the records: what the store keeps of each local session source, and how one
-- source is loaded. The scans are in LocalState/Diff. The clock of one diff is one time, the filesystem
-- and the stores answer the same throughout it; they are the fields of `World`.
pub mod Reload
pub mod Diff
use agent_transcript.Prelude.{
  ℕ, zero, suc, ◌+◌, ◌*◌, Bytes, codes, bytes_eq, Bool, true, false, not, ◌&&◌, ◌||◌, Option, none,
  some, List, [], ◌∷◌, ◌++◌, length, ltb, ◌==◌, if◌then◌else◌, lookup, map_insert, set_insert,
}
use agent_transcript.Harness.{Harness}
use agent_transcript.Errors.{Error, Result, ok, err, msg, cannot_resolve_origin}
use agent_transcript.Freshness.{Freshness, Info}
use agent_transcript.Document.{Content}
use agent_transcript.Fragment.{is_empty}
use agent_transcript.RepoId.{RepoResolution, Origin, resolution_of, normalize_cwd, unwrap_or}
use agent_transcript.Walk.{Entries}
use agent_transcript.Sources.{Site, Load, Failure, transient, read, load}

-- `STATE_SCHEMA`
abbrev pub state_schema : ℕ
state_schema = 2

-- `REPO_RETRY`, in nanoseconds.
abbrev pub repo_retry : ℕ
repo_retry = 300 * 1000000000

pub data RecordState : Type 0 where
  ready pending broken : RecordState

pub record SourceRecord (H : Type 0) : Type 0 where
  pub harness : H
  pub source : Bytes
  pub fingerprint : Bytes
  pub session_id : Bytes
  pub repo_key : Option Bytes
  pub state : RecordState
  pub freshness : Freshness
  pub info : Info

pub record RepoEntry : Type 0 where
  pub repo_key : Option Bytes
  pub checked_at : ℕ
  pub error : Option Error

pub record State (H : Type 0) : Type 0 where
  pub schema : ℕ
  pub sources : List (Bytes × SourceRecord H)
  pub repos : List (Bytes × RepoEntry)
  pub db_fingerprints : List (Bytes × Bytes)
  pub last_sweep : Option ℕ

unfoldable pub empty_state : (H : Type 0) → State H
empty_state H = record {
  schema = state_schema;
  sources = [];
  repos = [];
  db_fingerprints = [];
  last_sweep = none;
}

-- One entry of `Report::failures`: what its text shows.
pub data Complaint (H : Type 0) : Type 0 where
  no_repository : H → (source : Bytes) → Error → Complaint H
  empty_id : H → (source : Bytes) → Complaint H
  not_now : H → (source : Bytes) → Failure → Complaint H
  unreadable : H → (source : Bytes) → Failure → Complaint H
  site_failed : H → (path : Bytes) → Error → Complaint H

pub record Report (H : Type 0) : Type 0 where
  pub loaded : ℕ
  pub missing_cwd : ℕ
  pub changed_repos : List Bytes
  pub failures : List (Complaint H)

pub record LocalStore (H : Type 0) : Type 0 where
  pub state : State H
  pub dirty : Bool
  pub report : Report H

pub record World (H T : Type 0) : Type 0 where
  -- `sources::sites`
  pub sites : List (Site H T)
  -- the directories below a root, and the metadata of a file
  pub entries_of : Bytes → Entries
  pub stat : Bytes → Option (ℕ × ℕ)
  pub is_dir : Bytes → Bool
  -- the clock, and the time of the Unix epoch
  pub now : ℕ
  pub unix_epoch : ℕ
  -- `repo_id::origin_of`, with git as it answers, and the path of a `file://` address
  pub origin_of : Bytes → Origin
  pub file_path : Bytes → Option Bytes
  -- transcripts, their serialisation and SHA-256
  pub content : Content H T

abbrev key_of : RepoResolution → Option Bytes
key_of (RepoResolution.key k) = some k
key_of RepoResolution.no_origin = none
key_of (RepoResolution.failed e) = none

abbrev error_of : RepoResolution → Option Error
error_of (RepoResolution.key k) = none
error_of RepoResolution.no_origin = none
error_of (RepoResolution.failed e) = some e

-- `RepoEntry::of` at the time `now`.
unfoldable pub entry_of : ℕ → RepoResolution → RepoEntry
entry_of now r = record { repo_key = key_of r; checked_at = now; error = error_of r }

-- The match of `RepoEntry::resolution`.
abbrev resolution_from : Option Bytes → Option Error → RepoResolution
resolution_from (some k) e = RepoResolution.key k
resolution_from none (some e) = RepoResolution.failed e
resolution_from none none = RepoResolution.no_origin

unfoldable pub resolution : RepoEntry → RepoResolution
resolution e = resolution_from e.repo_key e.error

abbrev pub is_some {ℓ} : {A : Type ℓ} → Option A → Bool
is_some none = false
is_some (some a) = true

-- The test of `resolve_directory` for a cached entry that it returns.
unfoldable pub is_usable : ℕ → RepoEntry → Bool
is_usable now e = is_some e.repo_key || ltb now (e.checked_at + repo_retry)

pub data SessionRepo : Type 0 where
  key : Bytes → SessionRepo
  missing_cwd : SessionRepo
  unresolved : Error → SessionRepo

-- The match on the resolution in `resolve_repo`.
unfoldable pub session_repo_of : Bytes → RepoResolution → SessionRepo
session_repo_of dir (RepoResolution.key k) = SessionRepo.key k
session_repo_of dir RepoResolution.no_origin = unresolved (msg (cannot_resolve_origin dir))
session_repo_of dir (RepoResolution.failed e) = unresolved e

unfoldable pub is_pending : RecordState → Bool
is_pending pending = true
is_pending ready = false
is_pending RecordState.broken = false

unfoldable pub is_ready : RecordState → Bool
is_ready ready = true
is_ready pending = false
is_ready RecordState.broken = false

module _ {H : Type 0} where
  unfoldable pub sources_of : LocalStore H → List (Bytes × SourceRecord H)
  sources_of s = s.state.sources

  abbrev pub with_sources : List (Bytes × SourceRecord H) → LocalStore H → LocalStore H
  with_sources sources s = record s { state = record s.state { sources = sources }; dirty = true }

  abbrev pub complain : Complaint H → LocalStore H → LocalStore H
  complain c s = record s { report = record s.report { failures = s.report.failures ++ c ∷ [] } }

  -- `LocalStore::load`, on what the state file deserialises to.
  unfoldable pub load_state : Option (State H) → LocalStore H
  unfolding empty_state
  load_state file = record {
    state = elim file [
      | none ↦ empty_state H
      | some state ↦ if state.schema == state_schema then state else empty_state H
    ];
    dirty = false;
    report = record { loaded = 0; missing_cwd = 0; changed_repos = []; failures = [] };
  }

  -- `atomic_write` writes the state file, in a state `S` of the filesystem.
  unfoldable pub save_if_dirty :
      {S : Type 0}
      → (State H → S → Result (Unit {0}) × S)
      → LocalStore H
      → S
      → Result (LocalStore H) × S
  save_if_dirty atomic_write local s =
      let (written, s') = atomic_write local.state s in
      if not local.dirty then (ok local, s) else elim written [
        | err e ↦ (err e, s')
        | ok done ↦ (ok (record local { dirty = false }), s')
      ]

  unfoldable pub note_swept : ℕ → LocalStore H → LocalStore H
  note_swept now s = record s { state = record s.state { last_sweep = some now }; dirty = true }
