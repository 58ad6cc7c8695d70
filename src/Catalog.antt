-- ===== src/Catalog.antt =====
-- src/catalog.rs: the catalog of archived sessions, its merge, its pruning and its validation.
mod Steps
pub mod Union
pub mod Keys
pub mod Valid
pub mod Total
pub mod Prune
use agent_transcript.Prelude.{
  ℕ, zero, suc, ◌+◌, Bytes, codes, bytes_eq, bytes_le, Bool, true, false, not, ◌&&◌, ◌||◌, Option,
  none, some, List, [], ◌∷◌, ◌++◌, ltb, leb, ◌==◌, if◌then◌else◌, any, all, map, length, take, drop,
  get_elem?, sort_by,
}
use agent_transcript.Harness.{Harness}
use agent_transcript.Errors.{
  Error, Msg, Result, ok, err, msg, schema, no_revisions, two_repositories, hash_not_hex,
  wrong_object_key, ◌>>=◌, ◌>>◌,
}
use agent_transcript.Freshness.{
  Freshness, Info, Pick, local, remote, prefer, choose_current, display_of,
}

abbrev pub schema_version : ℕ
schema_version = 1

-- `OBJECTS_PREFIX`
abbrev pub objects_prefix : Bytes
objects_prefix = codes "v1/objects/"

pub record Revision : Type 0 where
  pub object_key : Bytes
  pub freshness : Freshness
  pub info : Info
  pub size : ℕ

pub record SessionRecord (H : Type 0) : Type 0 where
  pub repo_key : Bytes
  pub harness : H
  pub session_id : Bytes
  pub revisions : List Revision

pub record Catalog (H : Type 0) : Type 0 where
  pub schema : ℕ
  pub sessions : List (SessionRecord H)

unfoldable pub empty : (H : Type 0) → Catalog H
empty H = record { schema = schema_version; sessions = [] }

-- `char::is_ascii_hexdigit`
pub is_hex_digit : ℕ → Bool
is_hex_digit c =
    (leb b'0' c && leb c b'9') || (leb b'a' c && leb c b'f') || (leb b'A' c && leb c b'F')

unfoldable pub object_key : Bytes → Result Bytes
unfolding is_hex_digit
object_key content_hash =
    if ltb (length content_hash) 3 || not (all is_hex_digit content_hash)
    then err (msg (hash_not_hex content_hash))
    else ok (
        objects_prefix
        ++ codes "sha256/"
        ++ take 2 content_hash
        ++ codes "/"
        ++ drop 2 content_hash)

abbrev pub hash_of : Revision → Bytes
hash_of r = r.freshness.content_hash

abbrev pub has_hash : Bytes → List Revision → Bool
has_hash hash = any (λ r. bytes_eq (hash_of r) hash)

-- The inner loop of `merge_catalogs`: a revision is added unless one with its hash is there.
pub push_revisions : List Revision → List Revision → List Revision
push_revisions current [] = current
push_revisions current (r ∷ incoming) =
    push_revisions (if has_hash (hash_of r) current then current else current ++ r ∷ []) incoming

abbrev pub is_nil {ℓ} : {A : Type ℓ} → List A → Bool
is_nil [] = true
is_nil (x ∷ xs) = false

abbrev revision_before : Revision → Revision → Bool
revision_before a b = bytes_le (hash_of a) (hash_of b)

-- The inner loop of `validate`.
pub validate_revisions : List Revision → Result (Unit {0})
unfolding object_key
validate_revisions [] = ok tt
validate_revisions (r ∷ revisions) = do
  expected ← object_key (hash_of r)
  if bytes_eq r.object_key expected
      then validate_revisions revisions
      else err (msg (wrong_object_key (hash_of r) r.object_key expected))

module _ {H : Type 0} ⦃h : Harness H⦄ where
  -- The test of `find`.
  abbrev pub same_session : SessionRecord H → SessionRecord H → Bool
  same_session a b = h.beq a.harness b.harness && bytes_eq a.session_id b.session_id

  -- One round of the loop over the incoming sessions.
  pub absorb : SessionRecord H → List (SessionRecord H) → Result (List (SessionRecord H))
  unfolding push_revisions
  absorb s [] = ok (s ∷ [])
  absorb s (existing ∷ sessions) =
      if same_session existing s
      then (if bytes_eq existing.repo_key s.repo_key
          then ok (
              record existing { revisions = push_revisions existing.revisions s.revisions }
              ∷ sessions)
          else err (
              msg (
                two_repositories (h.to_string s.harness) s.session_id existing.repo_key
                  s.repo_key)))
      else (do rest ← absorb s sessions; ok (existing ∷ rest))

  pub absorb_all : List (SessionRecord H) → List (SessionRecord H) → Result (List (SessionRecord H))
  absorb_all sessions [] = ok sessions
  absorb_all sessions (s ∷ incoming) = do
    sessions' ← absorb s sessions
    absorb_all sessions' incoming

  -- The comparator of `sessions.sort_by`: harness name, then session id.
  pub session_before : SessionRecord H → SessionRecord H → Bool
  session_before a b =
      not (bytes_le (h.as_str b.harness) (h.as_str a.harness))
      || (bytes_eq (h.as_str a.harness) (h.as_str b.harness) && bytes_le a.session_id b.session_id)

  abbrev sorted_revisions : SessionRecord H → SessionRecord H
  sorted_revisions s = record s { revisions = sort_by revision_before s.revisions }

  -- The last loop of `merge_catalogs`.
  pub close_sessions : List (SessionRecord H) → Result (List (SessionRecord H))
  close_sessions [] = ok []
  close_sessions (s ∷ sessions) =
      if is_nil (sorted_revisions s).revisions
      then err (msg (no_revisions (h.to_string s.harness) s.session_id))
      else (do rest ← close_sessions sessions; ok (sorted_revisions s ∷ rest))

  unfoldable pub merge_catalogs : Catalog H → Catalog H → Result (Catalog H)
  unfolding absorb absorb_all close_sessions
  merge_catalogs base incoming =
      if not (base.schema == schema_version)
      then err (schema base.schema)
      else if not (incoming.schema == schema_version)
      then err (schema incoming.schema)
      else do
        sessions ← absorb_all base.sessions incoming.sessions
        closed ← close_sessions (sort_by session_before sessions)
        ok (record { schema = schema_version; sessions = closed })

  validate_sessions : List (SessionRecord H) → Result (Unit {0})
  validate_sessions [] = ok tt
  validate_sessions (s ∷ sessions) =
      if is_nil s.revisions
      then err (msg (no_revisions (h.to_string s.harness) s.session_id))
      else (validate_revisions s.revisions >> validate_sessions sessions)

  unfoldable pub validate : Catalog H → Result (Unit {0})
  unfolding validate_revisions validate_sessions
  validate c =
      if not (c.schema == schema_version)
      then err (schema c.schema)
      else validate_sessions c.sessions
