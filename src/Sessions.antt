-- ===== src/Sessions.antt =====
-- src/sessions.rs: the views of the local copies and of the catalog, and the search for a session.
pub mod Views
pub mod Locals
pub mod Find
pub mod Copies
pub mod Transcripts
use agent_transcript.Prelude.{
  ℕ, zero, suc, Bytes, bytes_eq, starts_with, Bool, true, false, not, ◌&&◌, ◌==◌, ltb, Option, none,
  some, List, [], ◌∷◌, map, length, keep_if, get_elem?, if◌then◌else◌,
}
use agent_transcript.Harness.{Harness}
use agent_transcript.Errors.{
  Error, msg, Result, ok, err, no_revisions, id_ambiguous, prefix_ambiguous, title_ambiguous,
  no_session_matches, index_out_of_bounds, ◌>>=◌, ◌>>◌,
}
use agent_transcript.Fragment.{SpanReq, parse_ref}
use agent_transcript.Freshness.{
  Freshness, Pick, local, remote, Current, prefer, choose_current, display_of, is_ambiguous,
}
use agent_transcript.Catalog.{Revision, SessionRecord, Catalog, is_nil}
use agent_transcript.Catalog.Prune.{freshness_of}
use agent_transcript.Merge.{LocalView, RemoteView, MergedView, unwrap_or, select}

module _ {H : Type 0} where
  picked : LocalView H → LocalView H → Pick → LocalView H
  picked best other local = best
  picked best other remote = other
  picked best other Pick.ambiguous = record best { ambiguous = true }

  -- The loop of `choose_local`; `best` is the first copy of the group, which is never empty.
  pub choose_local : LocalView H → List (LocalView H) → LocalView H
  unfolding picked
  choose_local best [] = best
  choose_local best (other ∷ group) =
      choose_local (picked best other (prefer best.freshness other.freshness)) group

  -- The view of a session whose current revision is known.
  pub remote_view : SessionRecord H → Revision → Bool → RemoteView H
  remote_view s current ambiguous = record {
    harness = s.harness;
    session_id = s.session_id;
    repo_key = s.repo_key;
    freshness = current.freshness;
    object_key = current.object_key;
    info = current.info;
    ambiguous = ambiguous;
  }

  -- `&session.revisions[index]`; an index out of range would be a panic.
  pub view_at : SessionRecord H → Current → Result (RemoteView H)
  unfolding remote_view
  view_at s c = elim (get_elem? s.revisions (display_of c)) [
    | none ↦ err (msg index_out_of_bounds)
    | some current ↦ ok (remote_view s current (is_ambiguous c))
  ]

  abbrev pub id_matches : Bytes → MergedView H → Bool
  id_matches src v = bytes_eq v.session_id src

  abbrev pub prefix_matches : Bytes → MergedView H → Bool
  prefix_matches src v = starts_with v.session_id src && not (is_nil src)

  abbrev pub title_matches : Bytes → MergedView H → Bool
  title_matches src v = elim v.info.title [ none ↦ false | some title ↦ bytes_eq title src ]

  -- One of the three searches of `unique_match`: more than one match is an error, one is the result,
  -- and without a match the next search goes on.
  pub search_level :
      Error → List (MergedView H) → Result (Option (MergedView H)) → Result (Option (MergedView H))
  search_level e [] next = next
  search_level e (v ∷ []) next = ok (some v)
  search_level e (v ∷ w ∷ rest) next = err e

  unfoldable pub unique_match : List (MergedView H) → Bytes → Result (Option (MergedView H))
  unfolding search_level
  unique_match merged src =
      search_level (msg (id_ambiguous src)) (keep_if (id_matches src) merged) (
        search_level (msg (prefix_ambiguous src)) (keep_if (prefix_matches src) merged)
          (search_level (msg (title_ambiguous src)) (keep_if (title_matches src) merged) (ok none)))

  -- The second search of `find_session`, without the range.
  find_source :
      List (MergedView H) → Bytes × Option SpanReq → Result (MergedView H × Bytes × Option SpanReq)
  unfolding unique_match
  find_source merged (src, range) = do
    found ← unique_match merged src
    elim found [ some v ↦ ok (v, src, range) | none ↦ err (msg (no_session_matches src)) ]

  -- The session that a query selects, the part of the query that named it, and the range.
  pub find_session : List (MergedView H) → Bytes → Result (MergedView H × Bytes × Option SpanReq)
  unfolding unique_match
  find_session merged query = do
    found ← unique_match merged query
    elim found [ some v ↦ ok (v, query, none) | none ↦ find_source merged (parse_ref query) ]

  -- The key of a document in the search index.
  pub fingerprint_of : MergedView H → Bytes
  fingerprint_of v = elim v.pick [
    | remote ↦ v.content_hash
    | local ↦ unwrap_or v.local_fingerprint []
    | Pick.ambiguous ↦ []
  ]

module _ {H : Type 0} ⦃h : Harness H⦄ where
  pub remote_view_of : SessionRecord H → Result (RemoteView H)
  unfolding view_at
  remote_view_of s =
      if is_nil s.revisions
      then err (msg (no_revisions (h.to_string s.harness) s.session_id))
      else (choose_current (map freshness_of s.revisions) >>= view_at s)

  pub remote_views : List (SessionRecord H) → Result (List (RemoteView H))
  unfolding remote_view_of
  remote_views [] = ok []
  remote_views (s ∷ sessions) = do
    view ← remote_view_of s
    views ← remote_views sessions
    ok (view ∷ views)

  pub merged : Bytes → Option H → List (LocalView H) → Catalog H → Result (List (MergedView H))
  unfolding remote_views
  merged repo_key from locals catalog = do
    remotes ← remote_views catalog.sessions
    ok (select repo_key from locals remotes)
