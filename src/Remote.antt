-- ===== src/Remote.antt =====
-- src/remote.rs: reading and committing the remote catalog. A call returns its result and the state of
-- the world after it.
pub mod Attempt
pub mod Commit
pub mod Conflict
pub mod Retry
use agent_transcript.Prelude.{
  ℕ, zero, suc, Bytes, codes, Bool, true, false, not, ◌&&◌, ◌==◌, Option, none, some, if◌then◌else◌,
}
use agent_transcript.Harness.{Harness}
use agent_transcript.Errors.{
  Error, precondition, msg, Result, ok, err, catalog_conflicted, ◌>>=◌, ◌>>◌,
}
use agent_transcript.Catalog.{Catalog, empty, is_nil, merge_catalogs, validate}
use agent_transcript.Catalog.Prune.{prune_to_current}
use agent_transcript.Bucket.{Fetched, Precondition, if_match, if_none_match_star, Bucket}

abbrev pub catalog_key : Bytes
catalog_key = codes "v1/catalog"

-- `crypto::encrypt` and `crypto::decrypt` under the key of the archive, and serde_json for a catalog;
-- `P` is the type of a plaintext. A nonce is drawn from the world.
pub record Codec (S P B H : Type 0) : Type 0 where
  pub encrypt : Bytes → P → S → Result B × S
  pub decrypt : Bytes → B → Result P
  pub to_vec : Catalog H → Result P
  pub from_slice : P → Result (Catalog H)

-- What is put, under which condition, and what is returned if that succeeds.
pub record Prepared (P E H : Type 0) : Type 0 where
  pub merged : Catalog H
  pub plain : P
  pub condition : Precondition E

-- How one attempt ends: a refusal is an error of `put`, and only this may be tried again.
pub data Outcome (H : Type 0) : Type 0 where
  committed : Catalog H → Outcome H
  refused : Error → Outcome H
  failed : Error → Outcome H

unfoldable pub is_precondition : Error → Bool
is_precondition precondition = true
is_precondition _ = false

abbrev pub condition_of : {E : Type 0} → Option E → Precondition E
condition_of (some etag) = if_match etag
condition_of none = if_none_match_star

outcome_of : {H : Type 0} → Catalog H → Result (Unit {0}) → Outcome H
outcome_of merged (ok done) = committed merged
outcome_of merged (err e) = refused e

module _ {S P B E H : Type 0} ⦃h : Harness H⦄ (bucket : Bucket S B E) (codec : Codec S P B H) where
  -- `load_catalog` after the read: an absent object is the empty catalog.
  unfoldable pub parse_catalog : Option (Fetched B E) → Result (Catalog H × Option E)
  parse_catalog none = ok (empty H, none)
  parse_catalog (some fetched) = do
    plain ← codec.decrypt catalog_key fetched.body
    catalog ← codec.from_slice plain
    validate catalog >> ok (catalog, fetched.etag)

  unfoldable pub load_catalog : S → Result (Catalog H × Option E) × S
  load_catalog s = let (found, s') = bucket.get catalog_key s in (found >>= parse_catalog, s')

  -- From the loaded catalog to what is put.
  pub prepare : Catalog H → Catalog H × Option E → Result (Prepared P E H)
  prepare incoming (base, etag) = do
    merged ← merge_catalogs base incoming
    plain ← codec.to_vec (prune_to_current merged)
    ok (record { merged = prune_to_current merged; plain = plain; condition = condition_of etag })

  -- `encrypt` and `put`.
  pub write : Prepared P E H → S → Outcome H × S
  unfolding outcome_of
  write p s =
      let (sealed, s') = codec.encrypt catalog_key p.plain s in
      elim sealed [
        | err e ↦ (failed e, s')
        | ok blob ↦
            let (written, s'') = bucket.put catalog_key blob p.condition s' in
            (outcome_of p.merged written, s'')
      ]

  -- The body of the loop.
  pub attempt : Catalog H → S → Outcome H × S
  unfolding load_catalog parse_catalog prepare write
  attempt incoming s =
      let (loaded, s') = load_catalog s in
      elim (loaded >>= prepare incoming) [ err e ↦ (failed e, s') | ok p ↦ write p s' ]

  -- The end of a round: return, or go on with the rounds that are left.
  pub conclude : ℕ → S → Result (Catalog H) × S → Outcome H → Result (Catalog H) × S
  unfolding is_precondition
  conclude left s' again (committed merged) = (ok merged, s')
  conclude left s' again (failed e) = (err e, s')
  conclude left s' again (refused e) =
      if is_precondition e && not (left == 0) then again else (err e, s')

  -- The loop with `left` attempts to go; `attempt < 5` says that another one is left.
  pub commit_loop : ℕ → Catalog H → S → Result (Catalog H) × S
  unfolding attempt conclude
  commit_loop zero incoming s = (err (msg catalog_conflicted), s)
  commit_loop (suc left) incoming s =
      let (outcome, s') = attempt incoming s in
      conclude left s' (commit_loop left incoming s') outcome

  unfoldable pub commit_catalog : Catalog H → S → Result (Catalog H) × S
  unfolding commit_loop load_catalog
  commit_catalog incoming s =
      if is_nil incoming.sessions
      then (let (loaded, s') = load_catalog s in (loaded >>= (λ l. ok l.0), s'))
      else commit_loop 5 incoming s
