-- ===== src/Merge/Unique.antt =====
-- How often `select` of src/merge.rs lists a session.
use agent_transcript.Prelude.{
  ◌≤◌, ◌<◌, Bytes, bytes_eq_iff, ◌≡◌, refl, arith, Bool, true, Option, List, [], ◌∷◌, ◌++◌, all,
  count, keep_if, count-append, count-sort_by, count-keep_if, all-keep_if,
}
use agent_transcript.Harness.{Harness}
use agent_transcript.Merge.{
  LocalView, RemoteView, from_remote, take_twin, is_twin, merge_locals, merge_remotes, select,
  listed_before, in_scope, unmarked,
}
use agent_transcript.Merge.Scope.{
  is_session, is_view, is_local_copy, is_remote_copy, merge_local-is_session, waits,
}

module _ {H : Type 0} ⦃h : Harness H⦄ (harness : H) (id repo_key : Bytes) (from : Option H) where
  abbrev is_here : LocalView H → Bool
  is_here l = is_session harness id l.harness l.session_id

  -- A remote copy of the session, taken or not.
  abbrev copy : RemoteView H × Bool → Bool
  copy m = is_remote_copy harness id repo_key from m.0

  abbrev free : RemoteView H × Bool → Bool
  free = waits harness id repo_key from

  count-free-le-copy : (ms : List (RemoteView H × Bool)) → count free ms ≤ count copy ms
  count-free-le-copy [] = omega arith
  count-free-le-copy (m ∷ ms) = ground (arith, count-free-le-copy ms)

  take_twin-copy :
      (l : LocalView H) (ms : List (RemoteView H × Bool))
      → count copy (take_twin repo_key l ms).1 ≡ count copy ms
  unfolding take_twin
  take_twin-copy l [] = refl
  take_twin-copy l ((r, used) ∷ ms) = ground (arith, take_twin-copy l ms)

  take_twin-free :
      (l : LocalView H) (ms : List (RemoteView H × Bool))
      → count free (take_twin repo_key l ms).1 ≤ count free ms
  unfolding take_twin
  take_twin-free l [] = omega arith
  take_twin-free l ((r, used) ∷ ms) = ground (arith, take_twin-free l ms)

  -- A local session takes the only copy of it.
  take_twin-takes :
      (l : LocalView H) (ms : List (RemoteView H × Bool))
      → in_scope repo_key from l ≡ true
      → is_here l ≡ true
      → count copy ms ≤ 1
      → count free (take_twin repo_key l ms).1 ≡ 0
  unfolding take_twin is_twin in_scope
  take_twin-takes l [] s t c = refl
  take_twin-takes l ((r, used) ∷ ms) s t c = ground (
    arith,
    take_twin-takes l ms s t,
    count-free-le-copy ms,
    h.beq_iff r.harness l.harness,
    h.beq_iff r.harness harness,
    h.beq_iff l.harness harness,
    bytes_eq_iff r.session_id l.session_id,
    bytes_eq_iff r.session_id id,
    bytes_eq_iff l.session_id id,
    bytes_eq_iff r.repo_key repo_key,
  )

  merge_locals-free :
      (ls : List (LocalView H)) (ms : List (RemoteView H × Bool))
      → count free (merge_locals repo_key ls ms).1 ≤ count free ms
  unfolding merge_locals
  merge_locals-free [] ms = omega arith
  merge_locals-free (l ∷ ls) ms =
      omega (arith, take_twin-free l ms, merge_locals-free ls (take_twin repo_key l ms).1)

  merge_locals-takes :
      (ls : List (LocalView H)) (ms : List (RemoteView H × Bool))
      → all (in_scope repo_key from) ls ≡ true
      → 0 < count is_here ls
      → count copy ms ≤ 1
      → count free (merge_locals repo_key ls ms).1 ≡ 0
  unfolding merge_locals
  merge_locals-takes [] ms s p c = absurd (omega arith)
  merge_locals-takes (l ∷ ls) ms s p c =
      let marked = (take_twin repo_key l ms).1 in
      ground (
        arith,
        take_twin-takes l ms,
        take_twin-copy l ms,
        merge_locals-free ls marked,
        merge_locals-takes ls marked,
      )

  merge_locals-count :
      (ls : List (LocalView H)) (ms : List (RemoteView H × Bool))
      → count (is_view harness id) (merge_locals repo_key ls ms).0 ≡ count is_here ls
  unfolding merge_locals
  merge_locals-count [] ms = refl
  merge_locals-count (l ∷ ls) ms =
      rw (merge_local-is_session, merge_locals-count ls (take_twin repo_key l ms).1)

  merge_remotes-count :
      (ms : List (RemoteView H × Bool))
      → count (is_view harness id) (merge_remotes repo_key from ms) ≡ count free ms
  unfolding merge_remotes from_remote
  merge_remotes-count [] = refl
  merge_remotes-count ((r, used) ∷ ms) = ground (arith, merge_remotes-count ms)

  unmarked-copy :
      (rs : List (RemoteView H))
      → count copy (unmarked rs) ≡ count (is_remote_copy harness id repo_key from) rs
  unfolding unmarked
  unmarked-copy [] = refl
  unmarked-copy (r ∷ rs) = ground (arith, unmarked-copy rs)

  -- With at most one local and one remote copy of a session in scope, the session is listed at most
  -- once.
  pub select_once :
      (locals : List (LocalView H)) (remotes : List (RemoteView H))
      → count (is_local_copy harness id repo_key from) locals ≤ 1
      → count (is_remote_copy harness id repo_key from) remotes ≤ 1
      → count (is_view harness id) (select repo_key from locals remotes) ≤ 1
  unfolding select
  select_once locals remotes one_local one_remote =
      let kept = keep_if (in_scope repo_key from) locals in
      let ms = unmarked remotes in
      let merged = (merge_locals repo_key kept ms).0 in
      let marked = (merge_locals repo_key kept ms).1 in
      ground (
        arith,
        count-sort_by listed_before (is_view harness id)
            (merged ++ merge_remotes repo_key from marked),
        count-append (is_view harness id) merged (merge_remotes repo_key from marked),
        merge_locals-count kept ms,
        merge_remotes-count marked,
        merge_locals-takes kept ms (all-keep_if (in_scope repo_key from) locals),
        merge_locals-free kept ms,
        count-free-le-copy ms,
        unmarked-copy remotes,
        count-keep_if is_here (in_scope repo_key from) locals,
      )
