-- ===== src/Catalog/Prune/Kept.antt =====
-- What `prune_to_current` of src/catalog.rs leaves of a session and of a catalog.
use agent_transcript.Prelude.{
  ◌≤◌, Bytes, bytes_eq, bytes_eq_iff, ◌≡◌, refl, arith, ◌∙◌, ap, true, false, not, ◌&&◌, List, [],
  ◌∷◌, any, all, count, map, get_elem?, some,
}
use agent_transcript.Harness.{Harness}
use agent_transcript.Errors.{ok}
use agent_transcript.Freshness.{Freshness, Current, choose_current, display_of}
use agent_transcript.Catalog.{Revision, SessionRecord, Catalog, hash_of, has_hash, is_nil, validate}
use agent_transcript.Catalog.Valid.{is_placed, is_valid, validate_iff}
use agent_transcript.Catalog.Prune.{
  superseded, prune_revisions, prune_session, prune_to_current, freshness_of,
}
use agent_transcript.Catalog.Prune.Survivors.{mem, survivors}
use agent_transcript.Catalog.Prune.Cuts.{current_at, at_current, prune_revisions-survivors}
use agent_transcript.Catalog.Prune.Keeps.{prune_revisions-cons}

survivors-has_hash :
    (current : Freshness) (seen : List Bytes) (rs : List Revision) (hash : Bytes)
    → has_hash hash (survivors current seen rs) ≡ (
        not (mem hash seen)
        && any (λ r. bytes_eq (hash_of r) hash && not (superseded current r)) rs)
unfolding survivors
survivors-has_hash current seen [] hash = ground arith
survivors-has_hash current seen (r ∷ rs) hash = ground (
  arith,
  survivors-has_hash current seen rs hash,
  survivors-has_hash current (hash_of r ∷ seen) rs hash,
  bytes_eq_iff (hash_of r) hash,
)

survivors-count :
    (current : Freshness) (seen : List Bytes) (rs : List Revision) (hash : Bytes)
    → count (λ r. bytes_eq (hash_of r) hash) (survivors current seen rs)
      ≤ (elim (mem hash seen) [ true ↦ 0 | false ↦ 1 ])
unfolding survivors
survivors-count current seen [] hash = ground arith
survivors-count current seen (r ∷ rs) hash = ground (
  arith,
  survivors-count current seen rs hash,
  survivors-count current (hash_of r ∷ seen) rs hash,
  bytes_eq_iff (hash_of r) hash,
)

-- The revisions of `before` that `after` keeps, for the current revision `here`.
pub record Kept (before after : List Revision) : Type 0 where
  pub here : Freshness
  pub is_current :
      (c : Current) × (choose_current (map freshness_of before) ≡ ok c)
      × (get_elem? (map freshness_of before) (display_of c) ≡ some here)
  pub hashes :
      (hash : Bytes)
      → has_hash hash after ≡ any (λ r. bytes_eq (hash_of r) hash && not (superseded here r)) before
  pub once : (hash : Bytes) → count (λ r. bytes_eq (hash_of r) hash) after ≤ 1

-- Pruning a session that has a revision keeps exactly the content hashes that have a revision the
-- session's current one does not strictly outrank, each once.
pub prune_revisions-Kept :
    (r : Revision) (rs : List Revision) → Kept (r ∷ rs) (prune_revisions (r ∷ rs))
prune_revisions-Kept r rs =
    let (c, k) = current_at r rs in
    let same = prune_revisions-survivors r rs c k in
    record {
      here = k.here.freshness;
      is_current =
          (c, k.chosen, at_current (r ∷ rs) k.pre k.post k.here (display_of c) k.whole k.position);
      hashes =
          λ hash. ap (has_hash hash) same ∙ survivors-has_hash k.here.freshness [] (r ∷ rs) hash;
      once = λ hash. rw same (survivors-count k.here.freshness [] (r ∷ rs) hash);
    }

survivors-placed :
    (current : Freshness) (seen : List Bytes) (rs : List Revision)
    → all is_placed rs ≡ true
    → all is_placed (survivors current seen rs) ≡ true
unfolding survivors
survivors-placed current seen [] p = refl
survivors-placed current seen (r ∷ rs) p =
    ground (arith, survivors-placed current seen rs, survivors-placed current (hash_of r ∷ seen) rs)

prune_revisions-placed :
    (rs : List Revision) → all is_placed rs ≡ true → all is_placed (prune_revisions rs) ≡ true
prune_revisions-placed [] p = unfold prune_revisions in refl
prune_revisions-placed (r ∷ rs) p =
    let (c, k) = current_at r rs in
    rw (prune_revisions-survivors r rs c k) (survivors-placed k.here.freshness [] (r ∷ rs) p)

pub prune_revisions-is_nil : (rs : List Revision) → is_nil (prune_revisions rs) ≡ is_nil rs
prune_revisions-is_nil [] = unfold prune_revisions in refl
prune_revisions-is_nil (r ∷ rs) =
    let (c, k) = current_at r rs in ap is_nil (prune_revisions-cons r rs c k)

module _ {H : Type 0} ⦃h : Harness H⦄ where
  prune_sessions-valid :
      (sessions : List (SessionRecord H))
      → all is_valid sessions ≡ true
      → all is_valid (map prune_session sessions) ≡ true
  unfolding is_valid prune_session
  prune_sessions-valid [] p = refl
  prune_sessions-valid (s ∷ sessions) p = ground (
    arith,
    prune_sessions-valid sessions,
    prune_revisions-is_nil s.revisions,
    prune_revisions-placed s.revisions,
  )

  -- Pruning a valid catalog gives a valid catalog.
  pub prune_to_current-valid :
      (c : Catalog H) → validate c ≡ ok tt → validate (prune_to_current c) ≡ ok tt
  unfolding prune_to_current
  prune_to_current-valid c p =
      let (version, sessions) = (validate_iff c).0 p in
      (validate_iff (prune_to_current c)).1 (version, prune_sessions-valid c.sessions sessions)
