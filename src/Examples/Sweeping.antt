-- ===== src/Examples/Sweeping.antt =====
-- A bucket with an object that the catalog refers to, an old one that nothing refers to, and a new one.
use agent_transcript.Prelude.{ℕ, Bytes, codes, bytes_eq, ◌≡◌, refl, none, some, List, [], ◌∷◌}
use agent_transcript.Errors.{ok}
use agent_transcript.Catalog.{Catalog, validate}
use agent_transcript.Bucket.{Listed, Bucket}
use agent_transcript.Remote.{Codec, parse_catalog, load_catalog}
use agent_transcript.Ingest.Deletes.{SweepsGarbage, sweep-SweepsGarbage}
use agent_transcript.Examples.{numbered, new, stored, session, catalog_of}

abbrev archived : Catalog ℕ
archived = catalog_of (session (codes "s1") (stored new ∷ []) ∷ [])

abbrev objects : List Listed
objects =
    record { key = codes "v1/objects/sha256/bb/bb"; size = 7; last_modified = some 1 }
    ∷ record { key = codes "v1/objects/sha256/cc/cc"; size = 9; last_modified = some 1 }
    ∷ record { key = codes "v1/objects/sha256/dd/dd"; size = 4; last_modified = some 900000000000 }
    ∷ []

-- The state is the list of the keys deleted so far.
abbrev shelf : Bucket (List Bytes) (Catalog ℕ) Bytes
shelf = record {
  get = λ key s. (ok (some (record { body = archived; etag = none })), s);
  put = λ key blob condition s. (ok tt, s);
  delete = λ key s. (ok tt, key ∷ s);
  list_detailed = λ prefix s. (ok objects, s);
}

abbrev clear : Codec (List Bytes) (Catalog ℕ) (Catalog ℕ) ℕ
clear = record {
  encrypt = λ key p s. (ok p, s);
  decrypt = λ key b. ok b;
  to_vec = λ c. ok c;
  from_slice = λ p. ok p;
}

loading : (load_catalog shelf clear []).0 ≡ ok (archived, none)
unfolding load_catalog parse_catalog validate bytes_eq
loading = refl

sweep-SweepsGarbage_example :
    SweepsGarbage shelf clear (λ repo_key. repo_key) 1000000000000 [] archived objects []
unfolding load_catalog
sweep-SweepsGarbage_example =
    sweep-SweepsGarbage shelf clear (λ repo_key. repo_key) 1000000000000 [] archived none objects
      loading refl
