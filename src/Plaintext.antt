-- ===== src/Plaintext.antt =====
-- src/remote.rs, second half: reading an archived object through the cache of decrypted bodies, and the
-- pruning of that cache.
pub mod Integrity
pub mod Pruning
use agent_transcript.Prelude.{
  ℕ, zero, suc, ◌+◌, ◌-◌, ◌*◌, Bytes, bytes_eq, Bool, true, false, ◌&&◌, ◌==◌, Option, none, some,
  List, [], ◌∷◌, length, all, ltb, leb, if◌then◌else◌, sort_by,
}
use agent_transcript.Errors.{Error, msg, Result, ok, err, missing_object, object_mismatch, ◌>>=◌}
use agent_transcript.Catalog.{is_hex_digit}
use agent_transcript.Bucket.{Fetched, Bucket}

-- `PLAINTEXT_MAX_BYTES`
abbrev pub max_bytes : ℕ
max_bytes = 512 * 1024 * 1024

-- `PLAINTEXT_MAX_AGE`, in nanoseconds.
abbrev pub max_age : ℕ
max_age = 30 * 24 * 60 * 60 * 1000000000

-- A directory entry that `read_dir` yields with its metadata.
pub record Entry : Type 0 where
  pub path : Bytes
  pub is_file : Bool
  pub is_json : Bool
  pub stem : Bytes
  pub modified : ℕ
  pub size : ℕ

-- The filesystem, as far as the cache uses it. `file_of` is the path of the body of a hash.
pub record Files (S : Type 0) : Type 0 where
  pub file_of : Bytes → Bytes
  pub read : Bytes → S → Option Bytes × S
  pub touch : Bytes → S → S
  pub remove : Bytes → S → Result (Unit {0}) × S
  pub atomic_write : Bytes → Bytes → S → Result (Unit {0}) × S
  pub read_dir : S → Option (List Entry) × S

-- Only files that this cache writes.
pub is_cached : Entry → Bool
is_cached e = e.is_file && e.is_json && length e.stem == 64 && all is_hex_digit e.stem

-- A time of modification after `now` is no age.
pub is_expired : ℕ → Entry → Bool
is_expired now e = ltb max_age (now - e.modified)

abbrev older_first : Entry → Entry → Bool
older_first a b = leb a.modified b.modified

pub total_size : List Entry → ℕ
total_size [] = 0
total_size (e ∷ entries) = e.size + total_size entries

module _ {S : Type 0} (files : Files S) where
  -- The first loop: expired files are removed, whatever comes of it, the others are collected.
  pub collect : ℕ → List Entry → S → List Entry × S
  unfolding is_cached is_expired
  collect now [] s = ([], s)
  collect now (e ∷ listing) s =
      let skipped = collect now listing s in
      let removed = collect now listing (files.remove e.path s).1 in
      if is_cached e
      then (if is_expired now e then removed else (e ∷ skipped.0, skipped.1))
      else skipped

  -- The second loop: the least recently used files go until the rest keeps to the budget.
  pub evict : ℕ → List Entry → S → S
  evict total [] s = s
  evict total (e ∷ entries) s =
      let (removed, s') = files.remove e.path s in
      let smaller = evict (total - e.size) entries s' in
      let same = evict total entries s' in
      if leb total max_bytes then s else elim removed [ ok done ↦ smaller | err f ↦ same ]

  pub prune_plaintext_cache : ℕ → S → S
  unfolding collect evict total_size
  prune_plaintext_cache now s =
      let (listing, s') = files.read_dir s in
      elim listing [
        | none ↦ s'
        | some found ↦
            let (entries, s'') = collect now found s' in
            evict (total_size entries) (sort_by older_first entries) s''
      ]

module _ {S B E : Type 0} (files : Files S) (bucket : Bucket S B E)
    (decrypt : Bytes → B → Result Bytes) (sha256_hex : Bytes → Bytes) where
  -- An object is used only if its plaintext has the hash that the catalog names.
  pub check_object : Bytes → Bytes → Option (Fetched B E) → Result Bytes
  check_object object_key content_hash none = err (msg (missing_object object_key))
  check_object object_key content_hash (some fetched) = do
    plain ← decrypt object_key fetched.body
    if bytes_eq (sha256_hex plain) content_hash
        then ok plain
        else err (msg (object_mismatch object_key content_hash))

  pub fetch_plaintext : ℕ → Bytes → Bytes → S → Result Bytes × S
  unfolding check_object prune_plaintext_cache
  fetch_plaintext now object_key content_hash s =
      let (found, s') = bucket.get object_key s in
      elim (found >>= check_object object_key content_hash) [
        | err e ↦ (err e, s')
        | ok plain ↦
            let (written, s'') = files.atomic_write (files.file_of content_hash) plain s' in
            elim written [
              | err e ↦ (err e, s'')
              | ok done ↦ (ok plain, prune_plaintext_cache files now s'')
            ]
      ]

  -- A cached body that does not have the hash is removed and fetched again.
  unfoldable pub load_plaintext : ℕ → Bytes → Bytes → S → Result Bytes × S
  unfolding fetch_plaintext
  load_plaintext now object_key content_hash s =
      let cached = files.file_of content_hash in
      let (body, s') = files.read cached s in
      elim body [
        | none ↦ fetch_plaintext now object_key content_hash s'
        | some bytes ↦
            let (removed, s'') = files.remove cached s' in
            if bytes_eq (sha256_hex bytes) content_hash
            then (ok bytes, files.touch cached s')
            else elim removed [
              | err e ↦ (err e, s'')
              | ok done ↦ fetch_plaintext now object_key content_hash s''
            ]
      ]
