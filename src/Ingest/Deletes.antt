-- ===== src/Ingest/Deletes.antt =====
-- What `sweep` of src/ingest.rs does to the bucket.
use agent_transcript.Prelude.{
  ℕ, ◌-◌, Bytes, codes, ◌≡◌, refl, ◌∙◌, Option, List, [], ◌∷◌, Memᴰ, All, All-keep_if, All-Memᴰ,
  keep_if, Bool-cases, inl, inr,
}
use agent_transcript.Harness.{Harness}
use agent_transcript.Errors.{ok, err, Result-cases}
use agent_transcript.Catalog.{Catalog}
use agent_transcript.Catalog.Valid.{validate_iff}
use agent_transcript.Bucket.{Listed, Bucket}
use agent_transcript.Remote.{Codec, load_catalog}
use agent_transcript.Remote.Attempt.{load_catalog-valid}
use agent_transcript.Ingest.{
  Footprint, sweep_grace, is_swept, live_objects, live_indexes_of, sweep_loop, sweep,
}
use agent_transcript.Ingest.Sweep.{IsGarbage, swept_all, live_objects-prefix, live_indexes-prefix}

module _ {S P B E H : Type 0} ⦃h : Harness H⦄ (bucket : Bucket S B E) (codec : Codec S P B H) where
  -- The specification of the sweep's effect: delete these objects, up to the first failure.
  pub delete_each : List Listed → S → S
  delete_each [] s = s
  delete_each (o ∷ objects) s =
      let (gone, s') = bucket.delete o.key s in
      elim gone [ err e ↦ s' | ok done ↦ delete_each objects s' ]

  sweep_loop-delete_each :
      (live live_indexes : List Bytes) (cutoff : ℕ) (objects : List Listed) (f : Footprint) (s : S)
      → (sweep_loop bucket codec live live_indexes cutoff objects f s).1
        ≡ delete_each (keep_if (is_swept live live_indexes cutoff) objects) s
  unfolding sweep_loop delete_each
  sweep_loop-delete_each live live_indexes cutoff [] f s = refl
  sweep_loop-delete_each live live_indexes cutoff (o ∷ objects) f s =
      elim (Bool-cases (is_swept live live_indexes cutoff o)) [
        | inl swept ↦ elim (Result-cases (bucket.delete o.key s).0) [
          | inl (done, gone) ↦
              rw (swept, gone)
                (sweep_loop-delete_each live live_indexes cutoff objects _
                  (bucket.delete o.key s).1)
          | inr (e, stuck) ↦ rw (swept, stuck) refl
        ]
        | inr stays ↦ rw stays (sweep_loop-delete_each live live_indexes cutoff objects _ s)
      ]

  sweep_listed :
      (sha256_hex : Bytes → Bytes) (now : ℕ) (s : S) (catalog : Catalog H) (etag : Option E)
      (objects : List Listed)
      → (load_catalog bucket codec s).0 ≡ ok (catalog, etag)
      → (bucket.list_detailed (codes "v1/") (load_catalog bucket codec s).1).0 ≡ ok objects
      → (sweep bucket codec sha256_hex now s).1
        ≡ (sweep_loop bucket codec
            (live_objects catalog.sessions)
            (live_indexes_of sha256_hex catalog.sessions)
            (now - sweep_grace)
            objects
            (record { total = 0; deleted = 0 })
            (bucket.list_detailed (codes "v1/") (load_catalog bucket codec s).1).1).1
  unfolding sweep
  sweep_listed sha256_hex now s catalog etag objects loaded listed = rw (sweep, loaded, listed) refl

  -- What a sweep that has read the catalog and listed the bucket does to it: it deletes the objects of
  -- `doomed`, one after the other, and nothing else; all of these are of the listing and garbage.
  pub record SweepsGarbage (sha256_hex : Bytes → Bytes) (now : ℕ) (s : S) (catalog : Catalog H)
      (objects : List Listed) (listing_state : S) : Type 0 where
    pub doomed : List Listed
    pub listed : All (λ o. Memᴰ o objects) doomed
    pub effect : (sweep bucket codec sha256_hex now s).1 ≡ delete_each doomed listing_state
    pub garbage :
        All
          (IsGarbage
            (live_objects catalog.sessions)
            (live_indexes_of sha256_hex catalog.sessions)
            now)
          doomed

  -- A sweep that has read the catalog and listed the bucket deletes only listed objects that no revision of
  -- that catalog and no search index of its repositories uses, that are not the catalog, and that were
  -- last modified more than the time of grace ago; this holds for the part that is done when a
  -- deletion fails, too.
  pub sweep-SweepsGarbage :
      (sha256_hex : Bytes → Bytes) (now : ℕ) (s : S) (catalog : Catalog H) (etag : Option E)
      (objects : List Listed)
      → (load_catalog bucket codec s).0 ≡ ok (catalog, etag)
      → (bucket.list_detailed (codes "v1/") (load_catalog bucket codec s).1).0 ≡ ok objects
      → SweepsGarbage sha256_hex now s catalog objects
          (bucket.list_detailed (codes "v1/") (load_catalog bucket codec s).1).1
  sweep-SweepsGarbage sha256_hex now s catalog etag objects loaded listed =
      let live = live_objects catalog.sessions in
      let live_indexes = live_indexes_of sha256_hex catalog.sessions in
      let cutoff = now - sweep_grace in
      record {
        doomed = keep_if (is_swept live live_indexes cutoff) objects;
        listed =
            All-keep_if (λ o. Memᴰ o objects) (is_swept live live_indexes cutoff) objects
              (All-Memᴰ objects);
        effect =
            sweep_listed sha256_hex now s catalog etag objects loaded listed
            ∙ sweep_loop-delete_each live live_indexes cutoff objects _ _;
        garbage =
            swept_all live live_indexes now objects
              (live_objects-prefix catalog.sessions
                ((validate_iff catalog).0
                  (load_catalog-valid bucket codec s catalog etag loaded)).1)
              (live_indexes-prefix sha256_hex catalog.sessions);
      }
