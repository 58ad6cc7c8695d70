-- ===== src/Freshness/Order.antt =====
-- The order that `rank` of src/merge.rs decides.
use agent_transcript.Prelude.{
  ℕ, ◌+◌, ◌<◌, bytes_eq_iff, ◌≡◌, ◌≢◌, ◌↔◌, ◌⊎◌, Option, none, some, arith,
}
use agent_transcript.Freshness.{
  Freshness, Rank, left, right, same, Pick, local, remote, time, rank, prefer,
}

-- A missing time is older than every time.
abbrev pub stamp : Option ℕ → ℕ
stamp none = 0
stamp (some t) = t + 1

-- `Outranks a b`: snapshot `a` is strictly newer than `b`.
abbrev pub Outranks : Freshness → Freshness → Type 0
Outranks a b =
    (stamp (time b) < stamp (time a))
    ⊎ ((stamp (time b) ≡ stamp (time a)) × (b.message_count < a.message_count))

abbrev pub Ties : Freshness → Freshness → Type 0
Ties a b = (stamp (time a) ≡ stamp (time b)) × (a.message_count ≡ b.message_count)

-- The arms of `rank`, as the order decides them.
pub rank_cases :
    (l r : Freshness)
    → ((rank l r ≡ left) × Outranks l r)
      ⊎ (((rank l r ≡ right) × Outranks r l)
          ⊎ (((rank l r ≡ same) × Ties l r × (l.content_hash ≡ r.content_hash))
              ⊎ ((rank l r ≡ Rank.ambiguous) × Ties l r × (l.content_hash ≢ r.content_hash))))
unfolding rank
rank_cases l r = ground (arith, bytes_eq_iff l.content_hash r.content_hash)

-- `prefer` picks the remote side exactly when it is strictly newer, reports ambiguity exactly on a
-- tie between different bodies, and picks the local side in all other cases.
pub prefer_iff :
    (l r : Freshness)
    → ((prefer l r ≡ remote) ↔ Outranks r l)
      × ((prefer l r ≡ Pick.ambiguous) ↔ (Ties l r × (l.content_hash ≢ r.content_hash)))
      × ((prefer l r ≡ local) ↔ (Outranks l r ⊎ (Ties l r × (l.content_hash ≡ r.content_hash))))
unfolding prefer rank
prefer_iff l r = ground (arith, bytes_eq_iff l.content_hash r.content_hash)
