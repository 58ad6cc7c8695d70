-- ===== src/Examples/Committing.antt =====
-- A bucket in memory that compares entity tags, and a commit of one machine after that of another.
use agent_transcript.Prelude.{
  ℕ, bytes_eq, bytes_le, sort_by, codes, ◌≡◌, ◌⊎◌, ◌↔◌, refl, Option, none, some, [], ◌∷◌, sym,
}
use native.Mathlib.Decide.{ℕ_discrete}
use agent_transcript.Errors.{precondition, Result, ok, err}
use agent_transcript.Freshness.{Freshness, choose_current, prefer, rank}
use agent_transcript.Catalog.{Catalog, merge_catalogs, validate}
use agent_transcript.Catalog.Prune.{prune_revisions, prune_to_current}
use agent_transcript.Bucket.{
  Fetched, Precondition, if_match, if_none_match_star, Bucket, Allows, History, IsConditional,
}
use agent_transcript.Remote.{Codec, refused, failed, attempt, commit_catalog}
use agent_transcript.Remote.Commit.{IsCodec, IsCommitted, commit_catalog-IsCommitted}
use agent_transcript.Remote.Retry.{Commits, commit_catalog_iff}
use agent_transcript.Remote.Conflict.{commit_catalog-eq-err}
use agent_transcript.Examples.{numbered, new, twin, stored, session, catalog_of}

Freshness-discrete : Discrete Freshness
Freshness-discrete = hlevel ℕ_discrete

Catalog-discrete : Discrete (Catalog ℕ)
Catalog-discrete = hlevel (ℕ_discrete, Freshness-discrete)

-- An object is its own entity tag.
abbrev object : Option (Catalog ℕ) → Option (Fetched (Catalog ℕ) (Catalog ℕ))
object none = none
object (some c) = some (record { body = c; etag = some c })

abbrev put_matching :
    Catalog ℕ → (e c : Catalog ℕ) → Dec (e ≡ c) → Result (Unit {0}) × Option (Catalog ℕ)
put_matching blob e c (yes _) = (ok tt, some blob)
put_matching blob e c (no _) = (err precondition, some c)

abbrev put_object :
    Catalog ℕ
    → Precondition (Catalog ℕ)
    → Option (Catalog ℕ)
    → Result (Unit {0}) × Option (Catalog ℕ)
put_object blob Precondition.none s = (ok tt, some blob)
put_object blob if_none_match_star none = (ok tt, some blob)
put_object blob if_none_match_star (some c) = (err precondition, some c)
put_object blob (if_match e) none = (err precondition, none)
put_object blob (if_match e) (some c) = put_matching blob e c (Catalog-discrete e c)

abbrev memory : Bucket (Option (Catalog ℕ)) (Catalog ℕ) (Catalog ℕ)
memory = record {
  get = λ key s. (ok (object s), s);
  put = λ key blob condition s. put_object blob condition s;
  delete = λ key s. (ok tt, none);
  list_detailed = λ prefix s. (ok [], s);
}

put_object_replaces :
    (blob : Catalog ℕ) (condition : Precondition (Catalog ℕ)) (s : Option (Catalog ℕ))
    → (put_object blob condition s).0 ≡ ok tt
    → Allows condition (object s) × (some blob ≡ (put_object blob condition s).1)
put_object_replaces blob Precondition.none s e = (tt, refl)
put_object_replaces blob if_none_match_star none e = (refl, refl)
put_object_replaces blob if_none_match_star (some c) e = absurd (cc)
put_object_replaces blob (if_match t) none e = absurd (cc)
put_object_replaces blob (if_match t) (some c) e = matching (Catalog-discrete t c) e
  where
    matching :
        (d : Dec (t ≡ c))
        → (put_matching blob t c d).0 ≡ ok tt
        → Allows (if_match t) (object (some c)) × (some blob ≡ (put_matching blob t c d).1)
    matching (yes same) e = ((record { body = c; etag = some c }, refl, cc), refl)
    matching (no other) e = absurd (cc)

same_etag :
    (s t : Option (Catalog ℕ)) (f g : Fetched (Catalog ℕ) (Catalog ℕ)) (e : Catalog ℕ)
    → object s ≡ some f
    → object t ≡ some g
    → f.etag ≡ some e
    → g.etag ≡ some e
    → f.body ≡ g.body
same_etag none t f g e a b x y = absurd (cc)
same_etag (some c) none f g e a b x y = absurd (cc)
same_etag (some c) (some d) f g e a b x y = cc

-- One machine: time passes only when it writes.
abbrev memory_history : History (Option (Catalog ℕ)) (Catalog ℕ) (Catalog ℕ)
memory_history = record {
  held = λ s key. object s;
  reaches = λ s t. s ≡ t;
  next = λ s t. (blob : Catalog ℕ) × (t ≡ some blob);
}

memory-IsConditional : IsConditional (Option (Catalog ℕ)) (Catalog ℕ) (Catalog ℕ) memory
memory-IsConditional = record {
  history = memory_history;
  get_shows = λ key s found e. (s, refl, refl, cc);
  put_replaces = λ key blob condition s e.
      let (allowed, last) = put_object_replaces blob condition s e in
      (
        record {
          before = s;
          after = some blob;
          begun = refl;
          step = (blob, refl);
          ended = last;
          object = record { body = blob; etag = some blob };
          stored = refl;
          body = refl;
        },
        allowed,
      );
  etag_names = λ key s t f g e. same_etag s t f g e;
}

abbrev plain : Codec (Option (Catalog ℕ)) (Catalog ℕ) (Catalog ℕ) ℕ
plain = record {
  encrypt = λ key p s. (ok p, s);
  decrypt = λ key b. ok b;
  to_vec = λ c. ok c;
  from_slice = λ p. ok p;
}

plain-IsCodec : IsCodec (Option (Catalog ℕ)) (Catalog ℕ) (Catalog ℕ) ℕ plain
plain-IsCodec = record {
  decrypt_encrypt = λ key p s blob e. sym e;
  from_slice-to_vec = λ c p e. sym e;
}

abbrev theirs : Catalog ℕ
theirs = catalog_of (session (codes "s1") (stored new ∷ []) ∷ [])

abbrev ours : Catalog ℕ
ours = catalog_of (session (codes "s1") (stored twin ∷ []) ∷ [])

abbrev both : Catalog ℕ
both = catalog_of (session (codes "s1") (stored new ∷ stored twin ∷ []) ∷ [])

ours_valid : validate ours ≡ ok tt
unfolding validate bytes_eq
ours_valid = refl

committing : commit_catalog memory plain ours (some theirs) ≡ (ok both, some both)
unfolding commit_catalog merge_catalogs validate prune_to_current choose_current rank bytes_eq
    bytes_le sort_by prune_revisions Catalog-discrete ℕ_discrete Freshness-discrete prefer
committing = refl

commit_catalog-IsCommitted_example :
    IsCommitted memory plain memory-IsConditional ours (some theirs) both (some both)
commit_catalog-IsCommitted_example =
    commit_catalog-IsCommitted memory plain memory-IsConditional plain-IsCodec ours (some theirs)
      both (some both) refl ours_valid committing

commit_catalog_iff_example :
    (commit_catalog memory plain ours (some theirs) ≡ (ok both, some both))
    ↔ Commits memory plain ours 5 (some theirs) both (some both)
commit_catalog_iff_example =
    commit_catalog_iff memory plain ours (some theirs) both (some both) refl

-- A bucket whose condition always fails, as if another machine had always been faster.
abbrev contended : Bucket (Option (Catalog ℕ)) (Catalog ℕ) (Catalog ℕ)
contended = record {
  get = λ key s. (ok (object s), s);
  put = λ key blob condition s. (err precondition, s);
  delete = λ key s. (ok tt, none);
  list_detailed = λ prefix s. (ok [], s);
}

conflicting : (commit_catalog contended plain ours (some theirs)).0 ≡ err precondition
unfolding commit_catalog merge_catalogs validate prune_to_current choose_current rank bytes_eq
    bytes_le sort_by
conflicting = refl

commit_catalog-eq-err_example :
    (t : Option (Catalog ℕ)) × (((attempt contended plain ours t).0 ≡ failed precondition)
      ⊎ ((attempt contended plain ours t).0 ≡ refused precondition))
commit_catalog-eq-err_example =
    commit_catalog-eq-err contended plain ours (some theirs) precondition refl conflicting
