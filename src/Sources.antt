-- ===== src/Sources.antt =====
-- src/sources.rs: where the sessions of each harness lie, how a file listing identifies them, and how
-- a source is loaded. The stores of the txcript package, the filesystem and SHA-256 are parameters.
pub mod Table
pub mod Owner
use agent_transcript.Prelude.{
  ℕ, zero, suc, ◌+◌, ◌-◌, ◌^◌, Bytes, codes, bytes_eq, bytes_le, starts_with, Bool, true, false,
  not, ◌&&◌, ◌||◌, Option, none, some, List, [], ◌∷◌, ◌++◌, map, any, find, keep_if, length, ltb,
  ◌==◌, get_elem?, if◌then◌else◌, split, strip_prefix, strip_suffix, ends_with, sort_by,
}
use agent_transcript.Prelude.{◌≡◌, refl, ◌⊎◌, inl, inr}
use agent_transcript.Harness.{Harness}
use agent_transcript.Walk.{TreeRow}
pub use agent_transcript.Errors.{Failure, shown, not_in_database, no_store}
use agent_transcript.Errors.{Error, Result, ok, err, msg, not_a_database, store_failed}
use agent_transcript.Fragment.{rsplit_once, decimal, is_empty}
use agent_transcript.RepoId.{unwrap_or, join}

pub record Discovery : Type 0 where
  pub source : Bytes
  pub fingerprint : Bytes

-- `LoadFailure`, by the kind of failure, and the transcript of a successful load.
pub data Load (T : Type 0) : Type 0 where
  transient : Failure → Load T
  broken : Failure → Load T
  read : T → Load T

pub Load-cases :
    {T : Type 0} (l : Load T)
    → ((t : T) × (l ≡ read t))
      ⊎ (((m : Failure) × (l ≡ transient m)) ⊎ ((m : Failure) × (l ≡ broken m)))
Load-cases (read t) = inl (t, refl)
Load-cases (transient m) = inr (inl (m, refl))
Load-cases (broken m) = inr (inr (m, refl))

pub data FileRule : Type 0 where
  ext : Bytes → FileRule
  cowork_record : FileRule

pub data Kind : Type 0 where
  files : (rule : FileRule) (exclude_dirs : List Bytes) → Kind
  session_dirs : (markers : List Bytes) → Kind
  grok_bot_dirs : Kind
  db : Kind

-- The txcript store behind a site: how it loads, and for a database what it finds.
pub data Loader (T : Type 0) : Type 0 where
  path : (load : Bytes → Load T) → Loader T
  db : (discover : Result (List (Bytes × Bytes))) (load : Bytes → Load T) → Loader T

pub record Site (H T : Type 0) : Type 0 where
  pub harness : H
  pub path : Bytes
  pub kind : Kind
  pub loader : Loader T

-- The parts of a path that `Path::components` keeps: a leading `/`, a leading `.`, and every named part.
is_named : Bytes → Bool
is_named part = not (is_empty part) && not (bytes_eq part (codes "."))

unfoldable pub components : Bytes → List Bytes
unfolding is_named
components text = elim (split b'/' text) [
  | [] ↦ []
  | first ∷ rest ↦
      let named = keep_if is_named rest in
      if is_empty text then [] else if is_empty first then codes "/" ∷ named else first ∷ named
]

unfoldable pub is_prefix : List Bytes → List Bytes → Bool
is_prefix [] parts = true
is_prefix (p ∷ prefix) [] = false
is_prefix (p ∷ prefix) (x ∷ parts) = bytes_eq p x && is_prefix prefix parts

-- `Path::starts_with`
unfoldable pub path_starts_with : Bytes → Bytes → Bool
unfolding components is_prefix
path_starts_with file base = is_prefix (components base) (components file)

-- The file name of a path with `/` separators: `rsplit('/').next()`.
unfoldable pub name_of : Bytes → Bytes
name_of rel = elim (rsplit_once b'/' rel) [ none ↦ rel | some (dir, name) ↦ name ]

unfoldable pub rule_matches : FileRule → Bytes → Bool
unfolding name_of
rule_matches (ext e) rel = elim (rsplit_once b'.' (name_of rel)) [
  | none ↦ false
  | some (stem, suffix) ↦ bytes_eq suffix e
]
rule_matches cowork_record rel =
    starts_with (name_of rel) (codes "local_") && ends_with (name_of rel) (codes ".json")

unfoldable pub matches_file : Kind → Bytes → Bool
unfolding rule_matches
matches_file (files rule exclude_dirs) rel =
    rule_matches rule rel && not (any (λ part. any (bytes_eq part) exclude_dirs) (split b'/' rel))
matches_file (session_dirs markers) rel = false
matches_file grok_bot_dirs rel = false
matches_file Kind.db rel = false

unfoldable pub is_dir_marker : Kind → Bytes → Bytes → Bool
unfolding name_of
is_dir_marker (session_dirs markers) parent name = any (bytes_eq name) markers
is_dir_marker grok_bot_dirs parent name =
    bytes_eq name (codes "profile.json") || elim (strip_suffix (codes ".jsonl") name) [
      | none ↦ false
      | some stem ↦ bytes_eq stem (name_of parent)
    ]
is_dir_marker (files rule exclude_dirs) parent name = false
is_dir_marker Kind.db parent name = false

-- `{mtime}:{size}`
abbrev pub stamp : ℕ → ℕ → Bytes
stamp mtime size = decimal mtime ++ codes ":" ++ decimal size

-- The bytes that `tree_rows_hash` feeds to SHA-256.
unfoldable pub hashed_rows : List TreeRow → Bytes
hashed_rows [] = []
hashed_rows (r ∷ rows) = r.rel ++ codes ":" ++ stamp r.mtime_ns r.size ++ 10 ∷ hashed_rows rows

-- `dir_fingerprint`, with the SHA-256 digest in hexadecimal as a parameter.
unfoldable pub dir_fingerprint : (Bytes → Bytes) → List TreeRow → Bytes
unfolding hashed_rows
dir_fingerprint sha256_hex rows = sha256_hex (hashed_rows rows)

abbrev pub rows_under : Bytes → List TreeRow → List TreeRow
rows_under dir = keep_if (λ r. starts_with r.rel (dir ++ codes "/"))

unfoldable pub sidecar_stamp : List TreeRow → Bytes → Bytes
sidecar_stamp rows want = elim (find (λ r. bytes_eq r.rel want) rows) [
  | none ↦ []
  | some r ↦ codes "|" ++ stamp r.mtime_ns r.size
]

unfoldable pub db_sidecars : FileRule → Bool
db_sidecars (ext e) = bytes_eq e (codes "db")
db_sidecars cowork_record = false

unfoldable pub extent_dir : FileRule → Bool
extent_dir (ext e) = false
extent_dir cowork_record = true

unfoldable pub row_fingerprint : (Bytes → Bytes) → Kind → List TreeRow → TreeRow → Bytes
unfolding sidecar_stamp db_sidecars extent_dir dir_fingerprint
row_fingerprint sha256_hex (files rule exclude_dirs) rows row =
    stamp row.mtime_ns row.size
    ++ (if db_sidecars rule
        then sidecar_stamp rows (row.rel ++ codes "-wal")
          ++ sidecar_stamp rows (row.rel ++ codes "-shm")
        else [])
    ++ (if extent_dir rule
        then codes "|"
          ++ dir_fingerprint sha256_hex
              (rows_under (unwrap_or row.rel (strip_suffix (codes ".json") row.rel)) rows)
        else [])
row_fingerprint sha256_hex (session_dirs markers) rows row = stamp row.mtime_ns row.size
row_fingerprint sha256_hex grok_bot_dirs rows row = stamp row.mtime_ns row.size
row_fingerprint sha256_hex Kind.db rows row = stamp row.mtime_ns row.size

-- `stat` is the modification time since the epoch and the length, when the metadata can be read.
unfoldable pub stat_fingerprint : (Bytes → Option (ℕ × ℕ)) → Bytes → Bytes
stat_fingerprint stat file = elim (stat file) [ none ↦ [] | some (mtime, size) ↦ stamp mtime size ]

unfoldable pub db_fingerprint : (Bytes → Option (ℕ × ℕ)) → Bytes → Bytes
unfolding stat_fingerprint
db_fingerprint stat file =
    stat_fingerprint stat file
    ++ codes "|"
    ++ stat_fingerprint stat (file ++ codes "-wal")
    ++ codes "|"
    ++ stat_fingerprint stat (file ++ codes "-shm")

-- `mtime_datetime`, with the time of the Unix epoch as a parameter.
abbrev pub mtime_datetime : ℕ → ℕ → ℕ
mtime_datetime unix_epoch mtime_ns =
    unix_epoch + (if ltb mtime_ns (2 ^ 64) then mtime_ns else 2 ^ 64 - 1)

unfoldable pub join_parts : Bytes → List Bytes → Bytes
join_parts base [] = base
join_parts base (part ∷ parts) = join_parts (join base part) parts

unfoldable pub join_rel : Bytes → Bytes → Bytes
unfolding join_parts
join_rel root rel = join root (join_parts [] (split b'/' rel))

pub discoveries : Bytes → List (Bytes × Bytes) → List Discovery
discoveries prefix [] = []
discoveries prefix ((reference, fingerprint) ∷ found) =
    record { source = prefix ++ reference; fingerprint = fingerprint } ∷ discoveries prefix found

module _ {H T : Type 0} ⦃h : Harness H⦄ where
  unfoldable pub source_prefix : Site H T → Bytes
  source_prefix site = elim site.loader [
    | Loader.path load ↦ site.path
    | Loader.db discover load ↦ site.path ++ 10 ∷ []
  ]

  unfoldable pub owns : Site H T → Bytes → Bool
  unfolding source_prefix path_starts_with
  owns site source = elim site.loader [
    | Loader.path load ↦ path_starts_with source site.path
    | Loader.db discover load ↦ starts_with source (source_prefix site)
  ]

  unfoldable pub load_from : Site H T → Bytes → Load T
  unfolding source_prefix
  load_from site source = elim site.loader [
    | Loader.path load ↦ load source
    | Loader.db discover load ↦ elim (strip_prefix (source_prefix site) source) [
      | none ↦ broken (not_in_database source site.path)
      | some reference ↦ load reference
    ]
  ]

  unfoldable pub discover : Site H T → Result (List Discovery)
  unfolding source_prefix discoveries
  discover site = elim site.loader [
    | Loader.path load ↦ err (msg (not_a_database (h.to_string site.harness)))
    | Loader.db found load ↦ elim found [
      | err e ↦ err e
      | ok pairs ↦ ok (discoveries (source_prefix site) pairs)
    ]
  ]

  -- `max_by_key` on the length of the site's path: the last one among the longest.
  unfoldable pub longest : Option (Site H T) → List (Site H T) → Option (Site H T)
  longest best [] = best
  longest none (s ∷ sites) = longest (some s) sites
  longest (some b) (s ∷ sites) =
      longest (some (if ltb (length s.path) (length b.path) then b else s)) sites

  unfoldable pub load : List (Site H T) → H → Bytes → Load T
  unfolding owns load_from longest
  load sites harness source =
      elim (longest none (keep_if (λ s. h.beq s.harness harness && owns s source) sites)) [
        | none ↦ broken (no_store (h.to_string harness) source)
        | some site ↦ load_from site source
      ]
