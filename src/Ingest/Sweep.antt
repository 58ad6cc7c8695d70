-- ===== src/Ingest/Sweep.antt =====
-- The test for garbage in `sweep` of src/ingest.rs.
use agent_transcript.Prelude.{
  ℕ, ◌+◌, ◌-◌, ◌<◌, Bytes, codes, bytes_eq, bytes_eq_iff, starts_with, ◌≡◌, ◌≢◌, refl, sym, ap,
  subst, arith, Bool, true, false, not, ◌||◌, some, List, [], ◌∷◌, ◌++◌, length, all, All,
  all-append, keep_if, take, drop, ltb, Bool-cases, inl, inr, Option-cases,
}
use agent_transcript.Harness.{Harness}
use agent_transcript.Errors.{ok, Result-cases}
use agent_transcript.Catalog.{
  Revision, SessionRecord, objects_prefix, object_key, is_hex_digit, hash_of,
}
use agent_transcript.Catalog.Valid.{is_placed, is_valid}
use agent_transcript.Bucket.{Listed}
use agent_transcript.Remote.{catalog_key}
use agent_transcript.Ingest.{
  sweep_grace, search_prefix, contains, object_keys, is_orphan, is_swept, live_objects,
  live_indexes_of,
}

starts_with-append : (p text : Bytes) → starts_with (p ++ text) p ≡ true
unfolding starts_with
starts_with-append [] text = refl
starts_with-append (c ∷ p) text = ground (arith, starts_with-append p text)

-- No key begins with both prefixes.
disjoint :
    (key : Bytes) → starts_with key objects_prefix ≡ true → starts_with key search_prefix ≡ false
unfolding starts_with
disjoint [] h = refl
disjoint (a ∷ []) h = absurd (ground arith)
disjoint (a ∷ b ∷ []) h = absurd (ground arith)
disjoint (a ∷ b ∷ c ∷ []) h = absurd (ground arith)
disjoint (a ∷ b ∷ c ∷ d ∷ key) h = ground arith

contains-all :
    (p : Bytes → Bool) (keys : List Bytes) (key : Bytes)
    → all p keys ≡ true
    → contains keys key ≡ true
    → p key ≡ true
contains-all p [] key a c = absurd (cc)
contains-all p (k ∷ keys) key a c = elim (Bool-cases (bytes_eq k key)) [
  | inl same ↦ subst (λ x. p x ≡ true) ((bytes_eq_iff k key).0 same) (ground arith)
  | inr other ↦ contains-all p keys key (ground arith) (ground arith)
]

abbrev has_prefix : Bytes → Bytes → Bool
has_prefix p key = starts_with key p

-- With every live key under its prefix, an orphan is in neither list.
is_orphan-live :
    (key : Bytes) (live live_indexes : List Bytes)
    → all (has_prefix objects_prefix) live ≡ true
    → all (has_prefix search_prefix) live_indexes ≡ true
    → is_orphan key live live_indexes ≡ true
    → (contains live key ≡ false) × (contains live_indexes key ≡ false)
unfolding is_orphan
is_orphan-live key live live_indexes a b o = ground (
  arith,
  disjoint key,
  contains-all (has_prefix objects_prefix) live key a,
  contains-all (has_prefix search_prefix) live_indexes key b,
)

object_key-prefix :
    (hash key : Bytes) → object_key hash ≡ ok key → starts_with key objects_prefix ≡ true
unfolding object_key
object_key-prefix hash key e =
    elim (Bool-cases (ltb (length hash) 3 || not (all is_hex_digit hash))) [
      | inl bad ↦ absurd (ground arith)
      | inr good ↦
          let tail = codes "sha256/" ++ take 2 hash ++ codes "/" ++ drop 2 hash in
          let same : objects_prefix ++ tail ≡ key = ground arith in
          subst (λ k. starts_with k objects_prefix ≡ true) same
            (starts_with-append objects_prefix tail)
    ]

is_placed-prefix :
    (r : Revision) → is_placed r ≡ true → starts_with r.object_key objects_prefix ≡ true
unfolding is_placed
is_placed-prefix r p = elim (Result-cases (object_key (hash_of r))) [
  | inr (e, bad) ↦ absurd (ground arith)
  | inl (key, good) ↦
      let stored : r.object_key ≡ key = ground (arith, bytes_eq_iff r.object_key key) in
      subst (λ k. starts_with k objects_prefix ≡ true) (sym stored)
        (object_key-prefix (hash_of r) key good)
]

object_keys-prefix :
    (revisions : List Revision)
    → all is_placed revisions ≡ true
    → all (has_prefix objects_prefix) (object_keys revisions) ≡ true
object_keys-prefix [] p = refl
object_keys-prefix (r ∷ revisions) p =
    ground (arith, is_placed-prefix r, object_keys-prefix revisions)

module _ {H : Type 0} ⦃h : Harness H⦄ where
  pub live_objects-prefix :
      (sessions : List (SessionRecord H))
      → all is_valid sessions ≡ true
      → all (has_prefix objects_prefix) (live_objects sessions) ≡ true
  unfolding live_objects is_valid
  live_objects-prefix [] p = refl
  live_objects-prefix (s ∷ sessions) p = ground (
    arith,
    live_objects-prefix sessions,
    object_keys-prefix s.revisions,
    all-append (has_prefix objects_prefix) (object_keys s.revisions) (live_objects sessions),
  )

  pub live_indexes-prefix :
      (sha256_hex : Bytes → Bytes) (sessions : List (SessionRecord H))
      → all (has_prefix search_prefix) (live_indexes_of sha256_hex sessions) ≡ true
  unfolding live_indexes_of
  live_indexes-prefix sha256_hex [] = refl
  live_indexes-prefix sha256_hex (s ∷ sessions) = ground (
    arith,
    live_indexes-prefix sha256_hex sessions,
    starts_with-append search_prefix (sha256_hex s.repo_key),
  )

-- Nothing refers to the object, it is not the catalog, and it has not been modified for the time of
-- grace before `now`.
pub record IsGarbage (live live_indexes : List Bytes) (now : ℕ) (o : Listed) : Type 0 where
  pub not_live : contains live o.key ≡ false
  pub not_index : contains live_indexes o.key ≡ false
  pub not_catalog : o.key ≢ catalog_key
  pub modified : ℕ
  pub modified_at : o.last_modified ≡ some modified
  pub old : modified + sweep_grace < now

catalog_key-kept :
    (live live_indexes : List Bytes) → is_orphan catalog_key live live_indexes ≡ false
unfolding is_orphan starts_with
catalog_key-kept live live_indexes = refl

is_swept-IsGarbage :
    (live live_indexes : List Bytes) (now : ℕ) (o : Listed)
    → all (has_prefix objects_prefix) live ≡ true
    → all (has_prefix search_prefix) live_indexes ≡ true
    → is_swept live live_indexes (now - sweep_grace) o ≡ true
    → IsGarbage live live_indexes now o
unfolding is_swept
is_swept-IsGarbage live live_indexes now o a b swept =
    let orphan : is_orphan o.key live live_indexes ≡ true = ground arith in
    let (x, y) = is_orphan-live o.key live live_indexes a b orphan in
    elim (Option-cases o.last_modified) [
      | inl never ↦ absurd (ground arith)
      | inr (t, at) ↦ record {
        not_live = x;
        not_index = y;
        not_catalog = λ same. kept same orphan;
        modified = t;
        modified_at = at;
        old = ground arith;
      }
    ]
  where
    kept : o.key ≡ catalog_key → is_orphan o.key live live_indexes ≡ true → ⊥
    kept same orphan =
        ground
          (arith, catalog_key-kept live live_indexes, ap (λ k. is_orphan k live live_indexes) same)

pub swept_all :
    (live live_indexes : List Bytes) (now : ℕ) (objects : List Listed)
    → all (has_prefix objects_prefix) live ≡ true
    → all (has_prefix search_prefix) live_indexes ≡ true
    → All
        (IsGarbage live live_indexes now)
        (keep_if (is_swept live live_indexes (now - sweep_grace)) objects)
swept_all live live_indexes now [] a b = tt
swept_all live live_indexes now (o ∷ objects) a b =
    elim (Bool-cases (is_swept live live_indexes (now - sweep_grace) o)) [
      | inl yes_swept ↦ rw yes_swept (
        is_swept-IsGarbage live live_indexes now o a b yes_swept,
        swept_all live live_indexes now objects a b,
      )
      | inr not_swept ↦ rw not_swept (swept_all live live_indexes now objects a b)
    ]
