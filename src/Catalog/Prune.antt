-- ===== src/Catalog/Prune.antt =====
-- `prune_to_current` of src/catalog.rs. The hash map from hashes to indexes is an association list;
-- the source sorts its values, so the order of the entries does not matter.
pub mod Survivors
pub mod Cuts
pub mod Keeps
pub mod Kept
use agent_transcript.Prelude.{
  ℕ, zero, suc, ◌+◌, Bytes, bytes_eq, Bool, true, false, Option, none, some, List, [], ◌∷◌, ◌++◌,
  leb, ◌==◌, if◌then◌else◌, map, length, get_elem?, sort_by,
}
use agent_transcript.Errors.{Result, ok, err}
use agent_transcript.Freshness.{
  Freshness, Pick, local, remote, Current, prefer, choose_current, display_of,
}
use agent_transcript.Catalog.{Revision, SessionRecord, Catalog, hash_of}

-- `matches!(prefer(..), Pick::Remote)`: the revision is strictly older than the current one.
abbrev is_remote : Pick → Bool
is_remote remote = true
is_remote local = false
is_remote Pick.ambiguous = false

pub superseded : Freshness → Revision → Bool
superseded current r = is_remote (prefer r.freshness current)

abbrev Indexes : Type 0
Indexes = List (Bytes × ℕ)

-- `by_hash.get(hash)` is `Some`.
has_key : Bytes → Indexes → Bool
has_key hash [] = false
has_key hash ((k, i) ∷ m) = if bytes_eq k hash then true else has_key hash m

-- `by_hash.insert(hash, index)`
put : Bytes → ℕ → Indexes → Indexes
put hash i [] = (hash, i) ∷ []
put hash i ((k, j) ∷ m) = if bytes_eq k hash then (k, i) ∷ m else (k, j) ∷ put hash i m

-- One round of the loop over the revisions, at `index = i`.
note_index : Freshness → ℕ → ℕ → Revision → Indexes → Indexes
unfolding has_key put superseded
note_index current best i r m =
    if superseded current r
    then m
    else if has_key (hash_of r) m
    then (if i == best then put (hash_of r) i m else m)
    else put (hash_of r) i m

index_loop : Freshness → ℕ → ℕ → List Revision → Indexes → Indexes
unfolding note_index
index_loop current best i [] m = m
index_loop current best i (r ∷ revisions) m =
    index_loop current best (i + 1) revisions (note_index current best i r m)

-- `revisions[index]` for each kept index; an index out of range would be a panic.
pub gather : List Revision → List ℕ → List Revision
gather revisions [] = []
gather revisions (i ∷ keep) = elim (get_elem? revisions i) [
  | none ↦ gather revisions keep
  | some r ↦ r ∷ gather revisions keep
]

abbrev index_of : Bytes × ℕ → ℕ
index_of e = e.1

pub keep_current : List Revision → ℕ → Freshness → List Revision
unfolding index_loop gather
keep_current revisions best current =
    gather revisions (sort_by leb (map index_of (index_loop current best 0 revisions [])))

abbrev pub freshness_of : Revision → Freshness
freshness_of r = r.freshness

-- The body of the loop over the sessions.
unfoldable pub prune_revisions : List Revision → List Revision
unfolding keep_current
prune_revisions revisions =
    if leb (length revisions) 1
    then revisions
    else elim (choose_current (map freshness_of revisions)) [
      | err e ↦ revisions
      | ok c ↦ elim (get_elem? (map freshness_of revisions) (display_of c)) [
        | none ↦ revisions
        | some current ↦ keep_current revisions (display_of c) current
      ]
    ]

module _ {H : Type 0} where
  unfoldable pub prune_session : SessionRecord H → SessionRecord H
  prune_session s = record s { revisions = prune_revisions s.revisions }

  unfoldable pub prune_to_current : Catalog H → Catalog H
  unfolding prune_session
  prune_to_current c = record c { sessions = map prune_session c.sessions }
