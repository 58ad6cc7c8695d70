-- ===== src/Merge/Listing.antt =====
-- The order of the list that `select` of src/merge.rs returns.
use agent_transcript.Prelude.{
  Bytes, bytes_le, bytes_le_refl, ◌<◌, ◌⊎◌, ◌≢◌, [], ◌∷◌, All, All-map, bytes_eq_iff,
  bytes_le_total, bytes_le_trans, bytes_le_antisymm, ◌≡◌, arith, true, false, Option, List,
  IsTotalOrder, IsSorted, sort_by-IsSorted,
}
use agent_transcript.Harness.{Harness}
use agent_transcript.Merge.{LocalView, RemoteView, MergedView, select, listed_before}

module _ {H : Type 0} ⦃h : Harness H⦄ where
  listed_before-total : (a b : MergedView H) → listed_before a b ≡ false → listed_before b a ≡ true
  unfolding listed_before
  listed_before-total a b e = ground (
    arith,
    bytes_le_total (h.as_str a.harness) (h.as_str b.harness),
    bytes_le_total (h.as_str b.harness) (h.as_str a.harness),
    bytes_le_antisymm (h.as_str b.harness) (h.as_str a.harness),
    bytes_eq_iff (h.as_str a.harness) (h.as_str b.harness),
    bytes_eq_iff (h.as_str b.harness) (h.as_str a.harness),
    bytes_le_total a.session_id b.session_id,
  )

  listed_before_trans :
      (a b c : MergedView H)
      → listed_before a b ≡ true
      → listed_before b c ≡ true
      → listed_before a c ≡ true
  unfolding listed_before
  listed_before_trans a b c p q =
      let x = h.as_str a.harness in
      let y = h.as_str b.harness in
      let z = h.as_str c.harness in
      ground (
        arith,
        bytes_eq_iff x y,
        bytes_eq_iff y z,
        bytes_eq_iff x z,
        bytes_le_total y x,
        bytes_le_total z y,
        bytes_le_total z x,
        bytes_le_trans x y z,
        bytes_le_trans z x y,
        bytes_le_trans y z x,
        bytes_le_antisymm x y,
        bytes_le_antisymm y z,
        bytes_le_antisymm x z,
        bytes_le_trans a.session_id b.session_id c.session_id,
      )

  -- The order of the listing: newest first, then by harness name, then by session id.
  pub listing_order : IsTotalOrder (listed_before {H = H} ⦃h = h⦄)
  listing_order = record { total = listed_before-total; trans = listed_before_trans }

  -- `a` is newer than `b`; or they are of one time, and the name of its harness is smaller, or the same
  -- and its session id is not greater.
  abbrev pub IsInOrder : MergedView H → MergedView H → Type 0
  IsInOrder a b =
      (b.sort_at < a.sort_at)
      ⊎ ((a.sort_at ≡ b.sort_at)
          × (((bytes_le (h.as_str a.harness) (h.as_str b.harness) ≡ true)
                × (h.as_str a.harness ≢ h.as_str b.harness))
              ⊎ ((h.as_str a.harness ≡ h.as_str b.harness)
                  × (bytes_le a.session_id b.session_id ≡ true))))

  abbrev pub IsListing : List (MergedView H) → Type 0
  IsListing [] = Unit
  IsListing (v ∷ views) = All (IsInOrder v) views × IsListing views

  listed_before-IsInOrder : (a b : MergedView H) → listed_before a b ≡ true → IsInOrder a b
  unfolding listed_before
  listed_before-IsInOrder a b e =
      let x = h.as_str a.harness in
      let y = h.as_str b.harness in
      ground (arith, bytes_eq_iff x y, bytes_le_total y x, bytes_le_refl y, bytes_le_refl x)

  IsSorted-IsListing :
      (views : List (MergedView H)) → IsSorted listed_before views → IsListing views
  IsSorted-IsListing [] sorted = tt
  IsSorted-IsListing (v ∷ views) (first, sorted) =
      (All-map (listed_before-IsInOrder v) views first, IsSorted-IsListing views sorted)

  -- `select` lists the newest sessions first; sessions of one time are listed by the name of the
  -- harness, and those of one time and harness by session id.
  pub select-IsListing :
      (repo_key : Bytes) (from : Option H) (locals : List (LocalView H))
      (remotes : List (RemoteView H))
      → IsListing (select repo_key from locals remotes)
  unfolding select
  select-IsListing repo_key from locals remotes =
      IsSorted-IsListing _ (sort_by-IsSorted listed_before listing_order _)
