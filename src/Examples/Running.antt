-- ===== src/Examples/Running.antt =====
-- A run over one new session file, against a bucket that logs what is put.
use agent_transcript.Prelude.{
  ℕ, Bytes, codes, ◌≡◌, refl, ap, sym, Bool, true, false, Option, none, some, List, [], ◌∷◌, lookup,
  lookup-map_insert, bytes_eq_refl,
}
use agent_transcript.Errors.{precondition, Result, ok, err, ok_injective}
use agent_transcript.Catalog.{Catalog, empty}
use agent_transcript.Bucket.{
  Fetched, Precondition, if_match, if_none_match_star, Bucket, Allows, History, IsConditional,
}
use agent_transcript.Remote.{Codec, commit_catalog}
use agent_transcript.Walk.{Entries, file}
use agent_transcript.LocalState.{LocalStore, World, load_state}
use agent_transcript.Ingest.Scan.{Scan}
use agent_transcript.Ingest.Run.{Machine, upload_all, archive_from}
use agent_transcript.Ingest.Run.Stored.{IsBacked, scanned_at, archive_from-IsBacked}
use agent_transcript.Examples.{numbered, some_info}
use agent_transcript.Examples.Recording.{folder, desk}

abbrev Log : Type 0
Log = List (Bytes × Bytes)

abbrev logged : Option Bytes → Option (Fetched Bytes Bytes)
logged none = none
logged (some b) = some (record { body = b; etag = none })

-- An object has no entity tag, so that no `if-match` is allowed.
abbrev put_absent : Bytes → Bytes → Log → Option Bytes → Result (Unit {0}) × Log
put_absent key blob s none = (ok tt, (key, blob) ∷ s)
put_absent key blob s (some b) = (err precondition, s)

abbrev put_logged : Bytes → Bytes → Precondition Bytes → Log → Result (Unit {0}) × Log
put_logged key blob Precondition.none s = (ok tt, (key, blob) ∷ s)
put_logged key blob if_none_match_star s = put_absent key blob s (lookup key s)
put_logged key blob (if_match e) s = (err precondition, s)

abbrev log_bucket : Bucket Log Bytes Bytes
log_bucket = record {
  get = λ key s. (ok (logged (lookup key s)), s);
  put = put_logged;
  delete = λ key s. (ok tt, s);
  list_detailed = λ prefix s. (ok [], s);
}

lookup_front : (key blob : Bytes) (s : Log) → lookup key ((key, blob) ∷ s) ≡ some blob
unfolding lookup
lookup_front key blob s = rw (bytes_eq_refl key) refl

absent :
    (key blob : Bytes) (s : Log) (held : Option Bytes)
    → (put_absent key blob s held).0 ≡ ok tt
    → (logged held ≡ none) × (((key, blob) ∷ s) ≡ (put_absent key blob s held).1)
absent key blob s none e = (refl, refl)
absent key blob s (some b) e = absurd (cc)

written :
    (key blob : Bytes) (condition : Precondition Bytes) (s : Log)
    → (put_logged key blob condition s).0 ≡ ok tt
    → Allows condition (logged (lookup key s))
      × (((key, blob) ∷ s) ≡ (put_logged key blob condition s).1)
written key blob Precondition.none s e = (tt, refl)
written key blob if_none_match_star s e = absent key blob s (lookup key s) e
written key blob (if_match t) s e = absurd (cc)

no_etag :
    (held : Option Bytes) (f : Fetched Bytes Bytes) (e : Bytes)
    → logged held ≡ some f
    → f.etag ≡ some e
    → ⊥
no_etag none f e a x = cc
no_etag (some b) f e a x = cc

-- One machine: time passes only when it writes.
abbrev log_history : History Log Bytes Bytes
log_history = record {
  held = λ s key. logged (lookup key s);
  reaches = λ s t. s ≡ t;
  next = λ s t. (entry : Bytes × Bytes) × (t ≡ entry ∷ s);
}

log_bucket-IsConditional : IsConditional Log Bytes Bytes log_bucket
log_bucket-IsConditional = record {
  history = log_history;
  get_shows = λ key s found e. (s, refl, refl, ok_injective e);
  put_replaces = λ key blob condition s e.
      let (allowed, last) = written key blob condition s e in
      (
        record {
          before = s;
          after = (key, blob) ∷ s;
          begun = refl;
          step = ((key, blob), refl);
          ended = last;
          object = record { body = blob; etag = none };
          stored = ap logged (lookup_front key blob s);
          body = refl;
        },
        allowed,
      );
  etag_names = λ key s t f g e a b x y. absurd (no_etag (lookup key s) f e a x);
}

abbrev sealed : Codec Log Bytes Bytes ℕ
sealed = record {
  encrypt = λ key p s. (ok p, s);
  decrypt = λ key b. ok b;
  to_vec = λ c. ok (codes "catalog");
  from_slice = λ p. ok (empty ℕ);
}

abbrev one_file : World ℕ Bytes
one_file = record desk {
  sites = folder ∷ [];
  entries_of = λ root. file (codes "a.jsonl") (some 5) 7 Entries.nothing;
  content = record {
    transcript = λ t. record {
      id = t;
      info = record some_info { cwd = some (codes "/w") };
      body = 1 ∷ 2 ∷ [];
    };
    to_vec = λ document. ok document.transcript;
    sha256_hex = λ b. codes "abcd";
  };
}

abbrev machine : Machine Log Bytes ℕ Bytes
machine = record {
  world = one_file;
  len = λ b. 9;
  atomic_write = λ state s. (ok tt, s);
  has_index = λ repo. true;
  build_for_repo = λ repo local catalog s. s;
}

abbrev outcome : Result (Scan ℕ Bytes × Catalog ℕ)
outcome = (archive_from log_bucket sealed machine (empty ℕ) (load_state none) []).0

abbrev value_of {ℓ} : {A : Type ℓ} → A → Result A → A
value_of a (ok b) = b
value_of a (err e) = a

abbrev nothing : Scan ℕ Bytes × Catalog ℕ
nothing = (
  record {
    uploads = [];
    incoming = empty ℕ;
    local = load_state none;
    unchanged = 0;
    read = 0;
    missing_cwd = 0;
    failures = [];
    changed_repos = [];
    all_repos = [];
  },
  empty ℕ,
)

abbrev result : Scan ℕ Bytes × Catalog ℕ
result = value_of nothing outcome

one_upload : outcome ≡ ok result
unfolding archive_from agent_transcript.Ingest.Scan.scan agent_transcript.LocalState.save_if_dirty
    agent_transcript.LocalState.Diff.diff agent_transcript.Walk.walk_tree
    agent_transcript.Prelude.sort_by agent_transcript.Sources.matches_file
    agent_transcript.Fragment.rsplit_once agent_transcript.Prelude.bytes_eq
    agent_transcript.Prelude.split lookup load_state agent_transcript.Sources.load
    agent_transcript.Sources.join_rel agent_transcript.RepoId.join
    agent_transcript.Prelude.starts_with agent_transcript.Prelude.ends_with
    agent_transcript.Prelude.map_insert agent_transcript.LocalState.is_ready
    agent_transcript.LocalState.session_repo_of agent_transcript.RepoId.resolution_of
    agent_transcript.Prelude.strip_prefix agent_transcript.Fragment.split_once
    agent_transcript.LocalState.is_pending empty agent_transcript.Catalog.object_key
    agent_transcript.Document.encrypt_document agent_transcript.Document.revision
    agent_transcript.Catalog.merge_catalogs commit_catalog
one_upload = refl

archive_from-IsBacked_example :
    IsBacked log_bucket log_bucket-IsConditional sealed machine
      (empty ℕ)
      result.0.incoming
      result.0.uploads
      (scanned_at log_bucket log_bucket-IsConditional sealed machine (empty ℕ) (load_state none) [])
    × ((upload_all log_bucket sealed machine result.0.uploads (
          scanned_at log_bucket log_bucket-IsConditional sealed machine
            (empty ℕ)
            (load_state none)
            [])).0
        ≡ ok tt)
    × ((commit_catalog log_bucket sealed result.0.incoming
          (upload_all log_bucket sealed machine result.0.uploads (
            scanned_at log_bucket log_bucket-IsConditional sealed machine
              (empty ℕ)
              (load_state none)
              [])).1).0
        ≡ ok result.1)
archive_from-IsBacked_example =
    archive_from-IsBacked log_bucket log_bucket-IsConditional sealed machine (empty ℕ)
      (load_state none) [] result one_upload
