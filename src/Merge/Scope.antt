-- ===== src/Merge/Scope.antt =====
-- Which sessions `select` of src/merge.rs lists.
use agent_transcript.Prelude.{
  Bytes, bytes_eq, bytes_eq_iff, ◌≡◌, refl, arith, Bool, true, ◌&&◌, ◌||◌, Option, some, List, [],
  ◌∷◌, ◌++◌, any, keep_if, any-append, any-sort_by, any-keep_if, not, Option-cases, inl, inr,
}
use agent_transcript.Harness.{Harness}
use agent_transcript.Merge.{
  LocalView, RemoteView, MergedView, merge_pair, from_local, from_remote, ambiguous_local,
  take_twin, is_twin, merge_locals, merge_local, merge_remotes, select, listed_before, in_scope,
  matches_scope, unmarked,
}

module _ {H : Type 0} ⦃h : Harness H⦄ (harness : H) (id : Bytes) where
  -- The session of a harness and an id: what the merged list shows once.
  abbrev pub is_session : H → Bytes → Bool
  is_session a b = h.beq a harness && bytes_eq b id

  abbrev pub is_view : MergedView H → Bool
  is_view v = is_session v.harness v.session_id

  abbrev pub is_local_copy : Bytes → Option H → LocalView H → Bool
  is_local_copy repo_key from l = in_scope repo_key from l && is_session l.harness l.session_id

  abbrev pub is_remote_copy : Bytes → Option H → RemoteView H → Bool
  is_remote_copy repo_key from r =
      matches_scope r.harness (some r.repo_key) repo_key from && is_session r.harness r.session_id

  from_remote-is_session :
      (r : RemoteView H) → is_view (from_remote r) ≡ is_session r.harness r.session_id
  unfolding from_remote
  from_remote-is_session r = refl

  merge_pair-is_session :
      (repo_key : Bytes) (l : LocalView H) (r : RemoteView H)
      → is_twin repo_key l r ≡ true
      → is_view (merge_pair l r) ≡ is_session l.harness l.session_id
  unfolding merge_pair is_twin
  merge_pair-is_session repo_key l r t =
      ground (arith, h.beq_iff r.harness l.harness, bytes_eq_iff r.session_id l.session_id)

  -- A remote copy that no local session has taken so far.
  abbrev pub waits : Bytes → Option H → RemoteView H × Bool → Bool
  waits repo_key from m = not m.1 && is_remote_copy repo_key from m.0

  take_twin-is_twin :
      (repo_key : Bytes) (l : LocalView H) (remotes : List (RemoteView H × Bool)) (r : RemoteView H)
      → (take_twin repo_key l remotes).0 ≡ some r
      → is_twin repo_key l r ≡ true
  unfolding take_twin
  take_twin-is_twin repo_key l [] r e = cc
  take_twin-is_twin repo_key l ((q, used) ∷ remotes) r e =
      ground (arith, take_twin-is_twin repo_key l remotes r)

  pub merge_local-is_session :
      (repo_key : Bytes) (l : LocalView H) (remotes : List (RemoteView H × Bool))
      → is_view (merge_local l (take_twin repo_key l remotes).0) ≡ is_session l.harness l.session_id
  unfolding merge_local from_local ambiguous_local
  merge_local-is_session repo_key l remotes = elim (Option-cases (take_twin repo_key l remotes).0) [
    | inl e ↦ rw e (ground arith)
    | inr (r, e) ↦
        rw e (merge_pair-is_session repo_key l r (take_twin-is_twin repo_key l remotes r e))
  ]

  -- A remote copy that a local session takes is a copy of that session.
  take_twin-waits :
      (repo_key : Bytes) (from : Option H) (l : LocalView H) (remotes : List (RemoteView H × Bool))
      → (is_session l.harness l.session_id
          || any (waits repo_key from) (take_twin repo_key l remotes).1)
        ≡ (is_session l.harness l.session_id || any (waits repo_key from) remotes)
  unfolding take_twin is_twin
  take_twin-waits repo_key from l [] = refl
  take_twin-waits repo_key from l ((r, used) ∷ remotes) = ground (
    arith,
    h.beq_iff r.harness l.harness,
    bytes_eq_iff r.session_id l.session_id,
    take_twin-waits repo_key from l remotes,
  )

  merge_locals-is_view :
      (repo_key : Bytes) (locals : List (LocalView H)) (remotes : List (RemoteView H × Bool))
      → any is_view (merge_locals repo_key locals remotes).0
        ≡ any (λ l. is_session l.harness l.session_id) locals
  unfolding merge_locals
  merge_locals-is_view repo_key [] remotes = refl
  merge_locals-is_view repo_key (l ∷ locals) remotes =
      rw (merge_local-is_session, merge_locals-is_view repo_key locals)

  merge_locals-waits :
      (repo_key : Bytes) (from : Option H) (locals : List (LocalView H))
      (remotes : List (RemoteView H × Bool))
      → (any (λ l. is_session l.harness l.session_id) locals
          || any (waits repo_key from) (merge_locals repo_key locals remotes).1)
        ≡ (any (λ l. is_session l.harness l.session_id) locals || any (waits repo_key from) remotes)
  unfolding merge_locals
  merge_locals-waits repo_key from [] remotes = refl
  merge_locals-waits repo_key from (l ∷ locals) remotes =
      let (twin, marked) = take_twin repo_key l remotes in
      ground (
        arith,
        merge_locals-waits repo_key from locals marked,
        take_twin-waits repo_key from l remotes,
      )

  merge_remotes-is_view :
      (repo_key : Bytes) (from : Option H) (remotes : List (RemoteView H × Bool))
      → any is_view (merge_remotes repo_key from remotes) ≡ any (waits repo_key from) remotes
  unfolding merge_remotes from_remote
  merge_remotes-is_view repo_key from [] = refl
  merge_remotes-is_view repo_key from ((r, used) ∷ remotes) =
      ground (arith, merge_remotes-is_view repo_key from remotes)

  unmarked-waits :
      (repo_key : Bytes) (from : Option H) (remotes : List (RemoteView H))
      → any (waits repo_key from) (unmarked remotes) ≡ any (is_remote_copy repo_key from) remotes
  unfolding unmarked
  unmarked-waits repo_key from [] = refl
  unmarked-waits repo_key from (r ∷ remotes) = ground (arith, unmarked-waits repo_key from remotes)

  -- A session is listed exactly if a local or a remote copy of it is in scope: `select` loses no
  -- session of the repository and shows none of another one.
  pub select_complete :
      (repo_key : Bytes) (from : Option H) (locals : List (LocalView H))
      (remotes : List (RemoteView H))
      → any is_view (select repo_key from locals remotes)
        ≡ (any (is_local_copy repo_key from) locals || any (is_remote_copy repo_key from) remotes)
  unfolding select
  select_complete repo_key from locals remotes =
      let kept = keep_if (in_scope repo_key from) locals in
      ground (
        arith,
        any-sort_by listed_before is_view (
            (merge_locals repo_key kept (unmarked remotes)).0
            ++ merge_remotes repo_key from (merge_locals repo_key kept (unmarked remotes)).1),
        any-append is_view (merge_locals repo_key kept (unmarked remotes)).0
            (merge_remotes repo_key from (merge_locals repo_key kept (unmarked remotes)).1),
        merge_locals-is_view repo_key kept (unmarked remotes),
        merge_remotes-is_view repo_key from (merge_locals repo_key kept (unmarked remotes)).1,
        merge_locals-waits repo_key from kept (unmarked remotes),
        unmarked-waits repo_key from remotes,
        any-keep_if (λ (l : LocalView H). is_session l.harness l.session_id)
            (in_scope repo_key from) locals,
      )
