-- ===== src/Ingest.antt =====
-- src/ingest.rs: the sweep that deletes the objects no catalog entry refers to.
pub mod Sweep
pub mod Deletes
pub mod Scan
pub mod Run
use agent_transcript.Prelude.{
  ℕ, zero, suc, ◌+◌, ◌-◌, ◌*◌, Bytes, codes, bytes_eq, starts_with, Bool, true, false, not, ◌&&◌,
  Option, none, some, List, [], ◌∷◌, ◌++◌, map, any, ltb, if◌then◌else◌,
}
use agent_transcript.Harness.{Harness}
use agent_transcript.Errors.{Result, ok, err}
use agent_transcript.Catalog.{Revision, SessionRecord, Catalog, objects_prefix}
use agent_transcript.Bucket.{Listed, Bucket}
use agent_transcript.Remote.{Codec, load_catalog}

-- `SWEEP_GRACE`, in nanoseconds.
abbrev pub sweep_grace : ℕ
sweep_grace = 600 * 1000000000

-- `SEARCH_PREFIX` of src/search_index.rs.
abbrev pub search_prefix : Bytes
search_prefix = codes "v1/search/"

-- `search_index::remote_key`, with the SHA-256 digest in hexadecimal as a parameter.
abbrev pub remote_key : (Bytes → Bytes) → Bytes → Bytes
remote_key sha256_hex repo_key = search_prefix ++ sha256_hex repo_key

abbrev pub contains : List Bytes → Bytes → Bool
contains keys key = any (λ k. bytes_eq k key) keys

abbrev pub object_keys : List Revision → List Bytes
object_keys [] = []
object_keys (r ∷ revisions) = r.object_key ∷ object_keys revisions

-- The catalog object itself is never an orphan.
pub is_orphan : Bytes → List Bytes → List Bytes → Bool
is_orphan key live live_indexes =
    if starts_with key objects_prefix
    then not (contains live key)
    else if starts_with key search_prefix
    then not (contains live_indexes key)
    else false

abbrev is_before : Option ℕ → ℕ → Bool
is_before none cutoff = false
is_before (some modified) cutoff = ltb modified cutoff

-- The test of the loop: an orphan that was last modified before the cutoff.
pub is_swept : List Bytes → List Bytes → ℕ → Listed → Bool
unfolding is_orphan
is_swept live live_indexes cutoff o =
    is_orphan o.key live live_indexes && is_before o.last_modified cutoff

-- What the sweep reports.
pub record Footprint : Type 0 where
  pub total : ℕ
  pub deleted : ℕ

module _ {H : Type 0} where
  -- `live`: the object keys of all revisions.
  pub live_objects : List (SessionRecord H) → List Bytes
  live_objects [] = []
  live_objects (s ∷ sessions) = object_keys s.revisions ++ live_objects sessions

  pub live_indexes_of : (Bytes → Bytes) → List (SessionRecord H) → List Bytes
  live_indexes_of sha256_hex [] = []
  live_indexes_of sha256_hex (s ∷ sessions) =
      remote_key sha256_hex s.repo_key ∷ live_indexes_of sha256_hex sessions

module _ {S P B E H : Type 0} ⦃h : Harness H⦄ (bucket : Bucket S B E) (codec : Codec S P B H) where
  -- The loop over the listed objects.
  pub sweep_loop :
      (live live_indexes : List Bytes) → ℕ → List Listed → Footprint → S → Result Footprint × S
  sweep_loop live live_indexes cutoff [] f s = (ok f, s)
  sweep_loop live live_indexes cutoff (o ∷ objects) f s =
      let (gone, s') = bucket.delete o.key s in
      let next =
        sweep_loop live live_indexes cutoff objects
          (record { total = f.total; deleted = f.deleted + 1 }) s' in
      let kept =
        sweep_loop live live_indexes cutoff objects
          (record { total = f.total + o.size; deleted = f.deleted }) s in
      if is_swept live live_indexes cutoff o
      then elim gone [ err e ↦ (err e, s') | ok done ↦ next ]
      else kept

  -- `sweep` at the time `now`, without its report.
  pub sweep : (Bytes → Bytes) → ℕ → S → Result Footprint × S
  unfolding sweep_loop live_objects live_indexes_of
  sweep sha256_hex now s =
      let (loaded, s') = load_catalog bucket codec s in
      elim loaded [
        | err e ↦ (err e, s')
        | ok (catalog, etag) ↦
            let (listed, s'') = bucket.list_detailed (codes "v1/") s' in
            elim listed [
              | err e ↦ (err e, s'')
              | ok objects ↦
                  sweep_loop (live_objects catalog.sessions)
                    (live_indexes_of sha256_hex catalog.sessions) (now - sweep_grace) objects
                    (record { total = 0; deleted = 0 }) s''
            ]
      ]
