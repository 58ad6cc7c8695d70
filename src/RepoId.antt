-- ===== src/RepoId.antt =====
-- src/repo_id.rs: the key of a repository, from its remote address and from a directory. A path is
-- the text of its bytes on Unix. URL parsing and running git are parameters.

pub mod Agree
use agent_transcript.Prelude.{
  ℕ, ◌+◌, Bytes, codes, bytes_eq, starts_with, Bool, true, false, ◌&&◌, ◌||◌, not, Option, none,
  some, List, [], ◌∷◌, ◌++◌, ◌==◌, if◌then◌else◌, any, trim, trim_matches, strip_suffix,
  contains_text, to_ascii_lowercase, ends_with,
}
use agent_transcript.Fragment.{split_once, rsplit_once, decimal, is_empty}
use agent_transcript.Errors.{
  Error, Result, ok, err, msg, empty_url, invalid_url, unsupported_scheme, no_host, not_a_remote,
  no_repository, git_failed, not_utf8, cannot_resolve_origin,
}

-- What the code reads of a `Url`.
pub record Url : Type 0 where
  pub scheme : Bytes
  pub host_str : Option Bytes
  pub port : Option ℕ
  pub path : Bytes

pub data Parsed : Type 0 where
  bad : (reason : Bytes) → Parsed
  url : Url → Parsed

-- `unwrap_or`
abbrev pub unwrap_or {ℓ} : {A : Type ℓ} → A → Option A → A
unwrap_or a none = a
unwrap_or a (some b) = b

abbrev key_path : Option ℕ → Bytes → Bytes → Bytes
key_path (some port) host path =
    codes "https://" ++ host ++ codes ":" ++ decimal port ++ codes "/" ++ path
key_path none host path = codes "https://" ++ host ++ codes "/" ++ path

abbrev finish_path : Bytes → Option ℕ → Bytes → Result Bytes
finish_path host port path =
    if is_empty host || is_empty path || contains_text path (codes " ")
    then err (msg (no_repository host path))
    else ok (key_path port host path)

unfoldable pub finish : Bytes → Option ℕ → Bytes → Result Bytes
finish host port path =
    let trimmed = trim_matches b'/' path in
    finish_path host port (unwrap_or trimmed (strip_suffix (codes ".git") trimmed))

-- `Some(22 | 80 | 443) | None => None`
unfoldable pub kept_port : Option ℕ → Option ℕ
kept_port none = none
kept_port (some port) = if port == 22 || port == 80 || port == 443 then none else some port

unfoldable pub is_supported : Bytes → Bool
is_supported scheme =
    any (bytes_eq scheme) (codes "https" ∷ codes "http" ∷ codes "ssh" ∷ codes "git" ∷ [])

unfoldable pub normalize_url : (Bytes → Parsed) → Bytes → Result Bytes
unfolding finish kept_port is_supported
normalize_url parse raw = elim (parse raw) [
  | bad reason ↦ err (msg (invalid_url raw reason))
  | url u ↦
      if is_supported u.scheme
      then elim u.host_str [
        | none ↦ err (msg (no_host raw))
        | some host ↦ finish (to_ascii_lowercase host) (kept_port u.port) u.path
      ]
      else err (msg (unsupported_scheme raw u.scheme))
]

-- `rsplit_once('@')`, whose second part is the host.
unfoldable pub host_of : Bytes → Bytes
host_of host_part = elim (rsplit_once b'@' host_part) [
  | none ↦ host_part
  | some (user, host) ↦ host
]

unfoldable pub normalize_scp : Bytes → Result Bytes
unfolding finish host_of
normalize_scp raw = elim (split_once b':' raw) [
  | none ↦ err (msg (not_a_remote raw))
  | some (host_part, path) ↦ finish (to_ascii_lowercase (host_of host_part)) none path
]

unfoldable pub normalize_remote_url : (Bytes → Parsed) → Bytes → Result Bytes
unfolding normalize_url normalize_scp
normalize_remote_url parse raw =
    let text = trim raw in
    if is_empty text
    then err (msg empty_url)
    else if contains_text text (codes "://")
    then normalize_url parse text
    else normalize_scp text

-- The path that `Url::parse` and `to_file_path` make of a `file://` address, or nothing.
unfoldable pub normalize_cwd : (Bytes → Option Bytes) → Bytes → Bytes
normalize_cwd file_path raw =
    let text = trim raw in
    if is_empty text
    then []
    else if starts_with text (codes "file://")
    then unwrap_or text (file_path text)
    else if starts_with text (codes "/")
    then unwrap_or text (file_path (codes "file://" ++ text))
    else text

-- `Path::is_absolute`
abbrev pub is_absolute : Bytes → Bool
is_absolute path = starts_with path (codes "/")

-- `Path::join`: an absolute path replaces the first one.
unfoldable pub join : Bytes → Bytes → Bytes
join base path =
    if is_absolute path
    then path
    else if is_empty base || ends_with base (codes "/")
    then base ++ path
    else base ++ codes "/" ++ path

unfoldable pub scope_directory : (Bytes → Option Bytes) → Option Bytes → Bytes → Bytes
unfolding normalize_cwd join
scope_directory file_path none process_cwd = process_cwd
scope_directory file_path (some path) process_cwd =
    let normalized = normalize_cwd file_path path in
    if is_absolute normalized then normalized else join process_cwd normalized

-- The text of an error is kept as the error.
pub data OriginError : Type 0 where
  git_missing : OriginError
  no_origin : (dir : Bytes) → OriginError
  invalid : (message : Error) → OriginError

pub data Origin : Type 0 where
  failed : OriginError → Origin
  key : Bytes → Origin

-- `git -C dir remote get-url origin`, as the process reports it.
pub data Output : Type 0 where
  not_found : Output
  not_run : (message : Bytes) → Output
  exited : (success : Bool) (stdout : Bytes) → Output

-- `normalize_remote_url(url).map_err(..)`
abbrev origin_from : Result Bytes → Origin
origin_from (err e) = failed (invalid e)
origin_from (ok k) = key k

-- `is_utf8` is the test of `String::from_utf8`.
unfoldable pub origin_of : (Bytes → Output) → (Bytes → Bool) → (Bytes → Parsed) → Bytes → Origin
unfolding normalize_remote_url
origin_of git is_utf8 parse dir = elim (git dir) [
  | not_found ↦ failed git_missing
  | not_run message ↦ failed (invalid (msg (git_failed message)))
  | exited success stdout ↦
      let text = trim stdout in
      if not success
      then failed (no_origin dir)
      else if not (is_utf8 stdout)
      then failed (invalid (msg not_utf8))
      else if is_empty text
      then failed (no_origin dir)
      else origin_from (normalize_remote_url parse text)
]

pub data RepoResolution : Type 0 where
  key : Bytes → RepoResolution
  no_origin : RepoResolution
  failed : Error → RepoResolution

-- `RepoResolution::into_key`
unfoldable pub into_key : RepoResolution → Bytes → Result Bytes
into_key (RepoResolution.key k) dir = ok k
into_key RepoResolution.no_origin dir = err (msg (cannot_resolve_origin dir))
into_key (RepoResolution.failed e) dir = err e

-- The match on `origin_of` in `LocalStore::resolve_directory`.
unfoldable pub resolution_of : Origin → RepoResolution
resolution_of (Origin.key k) = RepoResolution.key k
resolution_of (Origin.failed git_missing) = RepoResolution.no_origin
resolution_of (Origin.failed (OriginError.no_origin dir)) = RepoResolution.no_origin
resolution_of (Origin.failed (invalid message)) = RepoResolution.failed message
