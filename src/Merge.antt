-- ===== src/Merge.antt =====
-- src/merge.rs, second half: the local and the archived copy of each session, merged into one list
-- for one repository.
pub mod Pair
pub mod Scope
pub mod Unique
pub mod Listing
use agent_transcript.Prelude.{
  ℕ, zero, suc, Bytes, bytes_eq, bytes_le, Bool, true, false, not, ◌&&◌, ◌||◌, Option, none, some,
  List, [], ◌∷◌, ◌++◌, ltb, ◌==◌, if◌then◌else◌, find, any, keep_if, map, sort_by,
}
use agent_transcript.Harness.{Harness}
use agent_transcript.Freshness.{
  Freshness, Info, Rank, left, right, Pick, local, remote, rank, prefer, or_else, time,
}

pub record LocalView (H : Type 0) : Type 0 where
  pub harness : H
  pub session_id : Bytes
  pub repo_key : Option Bytes
  pub source : Bytes
  pub fingerprint : Bytes
  pub freshness : Freshness
  pub info : Info
  pub ambiguous : Bool

pub record RemoteView (H : Type 0) : Type 0 where
  pub harness : H
  pub session_id : Bytes
  pub repo_key : Bytes
  pub freshness : Freshness
  pub object_key : Bytes
  pub info : Info
  pub ambiguous : Bool

pub record MergedView (H : Type 0) : Type 0 where
  pub harness : H
  pub session_id : Bytes
  pub pick : Pick
  pub info : Info
  pub sort_at : ℕ
  pub object_key : Option Bytes
  pub content_hash : Bytes
  pub local_source : Option Bytes
  pub local_fingerprint : Option Bytes

abbrev pub unwrap_or {ℓ} : {A : Type ℓ} → Option A → A → A
unwrap_or none d = d
unwrap_or (some a) d = a

abbrev pub sort_time : Freshness → ℕ → ℕ
sort_time f started_at = unwrap_or (time f) started_at

is_left : Rank → Bool
is_left left = true
is_left _ = false

is_right : Rank → Bool
is_right right = true
is_right _ = false

module _ {H : Type 0} where
  pub ambiguous_local : LocalView H → MergedView H
  ambiguous_local l = record {
    harness = l.harness;
    session_id = l.session_id;
    pick = Pick.ambiguous;
    info = l.info;
    sort_at = sort_time l.freshness l.info.started_at;
    object_key = none;
    content_hash = [];
    local_source = some l.source;
    local_fingerprint = some l.fingerprint;
  }

  pub from_local : LocalView H → MergedView H
  from_local l = record {
    harness = l.harness;
    session_id = l.session_id;
    pick = local;
    info = l.info;
    sort_at = sort_time l.freshness l.info.started_at;
    object_key = none;
    content_hash = l.freshness.content_hash;
    local_source = some l.source;
    local_fingerprint = some l.fingerprint;
  }

  pub from_remote : RemoteView H → MergedView H
  from_remote r = record {
    harness = r.harness;
    session_id = r.session_id;
    pick = if r.ambiguous then Pick.ambiguous else remote;
    info = r.info;
    sort_at = sort_time r.freshness r.info.started_at;
    object_key = if r.ambiguous then none else some r.object_key;
    content_hash = if r.ambiguous then [] else r.freshness.content_hash;
    local_source = none;
    local_fingerprint = none;
  }

  pub from_remote_with_local : RemoteView H → LocalView H → MergedView H
  unfolding from_remote
  from_remote_with_local r l = record (from_remote r) {
    local_source = some l.source;
    local_fingerprint = some l.fingerprint;
  }

  merge_picked : LocalView H → RemoteView H → Pick → MergedView H
  unfolding ambiguous_local from_local from_remote_with_local
  merge_picked l r local = from_local l
  merge_picked l r remote = from_remote_with_local r l
  merge_picked l r Pick.ambiguous = ambiguous_local l

  -- `merge_pair`; every branch of the source is an `Ok`.
  unfoldable pub merge_pair : LocalView H → RemoteView H → MergedView H
  unfolding is_left is_right merge_picked
  merge_pair l r =
      let ordering = rank l.freshness r.freshness in
      if r.ambiguous && not (is_left ordering)
      then ambiguous_local l
      else if l.ambiguous && not (is_right ordering)
      then ambiguous_local l
      else merge_picked l r (prefer l.freshness r.freshness)

  -- The body of the first loop of `select`, for a session and its archived copy if there is one.
  pub merge_local : LocalView H → Option (RemoteView H) → MergedView H
  unfolding merge_pair
  merge_local l (some r) = merge_pair l r
  merge_local l none = if l.ambiguous then ambiguous_local l else from_local l

abbrev is_some_of : Option Bytes → Bytes → Bool
is_some_of none key = false
is_some_of (some k) key = bytes_eq k key

module _ {H : Type 0} ⦃h : Harness H⦄ where
  abbrev selected : Option H → H → Bool
  selected none harness = true
  selected (some only) harness = h.beq only harness

  unfoldable pub matches_scope : H → Option Bytes → Bytes → Option H → Bool
  matches_scope harness session_repo repo_key from =
      is_some_of session_repo repo_key && selected from harness

  -- The test of `position`: the archived copy of a local session, in the same repository.
  pub is_twin : Bytes → LocalView H → RemoteView H → Bool
  is_twin repo_key l r =
      h.beq r.harness l.harness
      && bytes_eq r.session_id l.session_id
      && bytes_eq r.repo_key repo_key

  -- `position(is_twin)` with `used_remote[index] = true`: the remote copies with their marks, and the
  -- one that was found.
  pub take_twin :
      Bytes
      → LocalView H
      → List (RemoteView H × Bool)
      → Option (RemoteView H) × List (RemoteView H × Bool)
  unfolding is_twin
  take_twin repo_key l [] = (none, [])
  take_twin repo_key l ((r, used) ∷ remotes) =
      let (found, rest) = take_twin repo_key l remotes in
      if is_twin repo_key l r then (some r, (r, true) ∷ remotes) else (found, (r, used) ∷ rest)

  -- The first loop of `select`, over the local sessions in scope.
  pub merge_locals :
      Bytes
      → List (LocalView H)
      → List (RemoteView H × Bool)
      → List (MergedView H) × List (RemoteView H × Bool)
  unfolding merge_local
  merge_locals repo_key [] remotes = ([], remotes)
  merge_locals repo_key (l ∷ locals) remotes =
      let (twin, marked) = take_twin repo_key l remotes in
      let (merged, left_over) = merge_locals repo_key locals marked in
      (merge_local l twin ∷ merged, left_over)

  -- The second loop: the remote sessions in scope that no local session took.
  pub merge_remotes : Bytes → Option H → List (RemoteView H × Bool) → List (MergedView H)
  merge_remotes repo_key from [] = []
  merge_remotes repo_key from ((r, used) ∷ remotes) =
      let rest = merge_remotes repo_key from remotes in
      if used || not (matches_scope r.harness (some r.repo_key) repo_key from)
      then rest
      else from_remote r ∷ rest

  -- The comparator of `merged.sort_by`: newest first, then harness name, then session id.
  pub listed_before : MergedView H → MergedView H → Bool
  listed_before a b =
      ltb b.sort_at a.sort_at
      || (a.sort_at == b.sort_at
          && (not (bytes_le (h.as_str b.harness) (h.as_str a.harness))
              || (bytes_eq (h.as_str a.harness) (h.as_str b.harness)
                  && bytes_le a.session_id b.session_id)))

  unfoldable pub in_scope : Bytes → Option H → LocalView H → Bool
  unfolding matches_scope
  in_scope repo_key from l = matches_scope l.harness l.repo_key repo_key from

  unmarked : List (RemoteView H) → List (RemoteView H × Bool)
  unmarked [] = []
  unmarked (r ∷ remotes) = (r, false) ∷ unmarked remotes

  pub select : Bytes → Option H → List (LocalView H) → List (RemoteView H) → List (MergedView H)
  unfolding merge_locals merge_remotes unmarked
  select repo_key from locals remotes =
      let (merged, marked) =
        merge_locals repo_key (keep_if (in_scope repo_key from) locals) (unmarked remotes) in
      sort_by listed_before (merged ++ merge_remotes repo_key from marked)
