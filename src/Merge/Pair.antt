-- ===== src/Merge/Pair.antt =====
-- src/merge.rs: which copy of a session supplies the body, and what the merged view of it holds.
use agent_transcript.Prelude.{
  Bytes, ◌≡◌, ◌↔◌, ◌⊎◌, refl, arith, Bool, true, false, Option, none, some, List, [], ◌∷◌, all,
  all-append, all-sort_by, not, ◌&&◌,
}
use agent_transcript.Harness.{Harness}
use agent_transcript.Freshness.{Pick, local, remote}
use agent_transcript.Freshness.Order.{Outranks, Ties, prefer_iff, rank_cases}
use agent_transcript.Merge.{
  LocalView, RemoteView, MergedView, merge_pair, from_local, from_remote, ambiguous_local,
  take_twin, merge_locals, merge_local, merge_remotes, select,
}

module _ {H : Type 0} where
  -- The body of a merged pair is the local one exactly if the local side has one body and is strictly
  -- newer, or has the same body as an archive that is not split; it is the archived one exactly if the
  -- archive is not split and strictly newer. In every other case there is no single body.
  pub merge_pair_iff :
      (l : LocalView H) (r : RemoteView H)
      → (((merge_pair l r).pick ≡ local) ↔ (
          (l.ambiguous ≡ false)
          × (Outranks l.freshness r.freshness
              ⊎ ((r.ambiguous ≡ false)
                  × Ties l.freshness r.freshness
                  × (l.freshness.content_hash ≡ r.freshness.content_hash)))))
        × (((merge_pair l r).pick ≡ remote)
            ↔ ((r.ambiguous ≡ false) × Outranks r.freshness l.freshness))
  unfolding merge_pair
  merge_pair_iff l r =
      ground (arith, rank_cases l.freshness r.freshness, prefer_iff l.freshness r.freshness)

abbrev is_some {ℓ} : {A : Type ℓ} → Option A → Bool
is_some none = false
is_some (some a) = true

abbrev is_empty : Bytes → Bool
is_empty [] = true
is_empty (c ∷ s) = false

-- What a reader of a merged view relies on: a pick names the copy that it reads, and an ambiguous
-- view names no body.
abbrev pub readable_as : Pick → Option Bytes → Option Bytes → Bytes → Bool
readable_as local source object hash = is_some source
readable_as remote source object hash = is_some object
readable_as Pick.ambiguous source object hash = not (is_some object) && is_empty hash

module _ {H : Type 0} where
  abbrev pub readable : MergedView H → Bool
  readable v = readable_as v.pick v.local_source v.object_key v.content_hash

  merge_pair-readable : (l : LocalView H) (r : RemoteView H) → readable (merge_pair l r) ≡ true
  unfolding merge_pair
  merge_pair-readable l r = ground arith

  merge_local-readable :
      (l : LocalView H) (twin : Option (RemoteView H)) → readable (merge_local l twin) ≡ true
  unfolding merge_local from_local ambiguous_local
  merge_local-readable l none = ground arith
  merge_local-readable l (some r) = merge_pair-readable l r

  from_remote-readable : (r : RemoteView H) → readable (from_remote r) ≡ true
  unfolding from_remote
  from_remote-readable r = ground arith

module _ {H : Type 0} ⦃h : Harness H⦄ where
  merge_locals-readable :
      (repo_key : Bytes) (locals : List (LocalView H)) (remotes : List (RemoteView H × Bool))
      → all readable (merge_locals repo_key locals remotes).0 ≡ true
  unfolding merge_locals
  merge_locals-readable repo_key [] remotes = refl
  merge_locals-readable repo_key (l ∷ locals) remotes =
      let (twin, marked) = take_twin repo_key l remotes in
      rw (merge_local-readable l twin) (merge_locals-readable repo_key locals marked)

  merge_remotes-readable :
      (repo_key : Bytes) (from : Option H) (remotes : List (RemoteView H × Bool))
      → all readable (merge_remotes repo_key from remotes) ≡ true
  unfolding merge_remotes
  merge_remotes-readable repo_key from [] = refl
  merge_remotes-readable repo_key from ((r, used) ∷ remotes) =
      ground (arith, merge_remotes-readable repo_key from remotes, from_remote-readable r)

  -- Every view that `select` lists is readable.
  pub select-readable :
      (repo_key : Bytes) (from : Option H) (locals : List (LocalView H))
      (remotes : List (RemoteView H))
      → all readable (select repo_key from locals remotes) ≡ true
  unfolding select
  select-readable repo_key from locals remotes =
      rw (all-sort_by, all-append, merge_locals-readable, merge_remotes-readable)
