-- ===== src/Ingest/Run/Stored.antt =====
-- src/ingest.rs: the objects in the bucket when the catalog is committed.
use agent_transcript.Prelude.{
  Bytes, ◌≡◌, refl, ◌∙◌, subst, inl, inr, true, false, List, [], ◌∷◌, ◌⊎◌, Memᴰ, Memᴰ-All, All,
  All-map,
}
use agent_transcript.Harness.{Harness}
use agent_transcript.Errors.{ok, err, ◌>>=◌, >>=-eq-ok, Result-cases, ok_injective}
use agent_transcript.Catalog.{Catalog, object_key}
use agent_transcript.LocalState.{LocalStore}
use agent_transcript.Bucket.{Bucket, Precondition, Replaces, IsConditional}
use agent_transcript.Remote.{Codec, commit_catalog}
use agent_transcript.Ingest.Scan.{Upload, Scan, scan}
use agent_transcript.Ingest.Scan.Plan.{IsPlan, has_body}
use agent_transcript.Ingest.Scan.Loop.{Seals, scan-IsPlan}
use agent_transcript.Ingest.Run.{Machine, upload_all, archive_from}

module _ {S B E : Type 0} (bucket : Bucket S B E) where
  -- The uploads, made one after the other from the state `s` on, put `v` in a call that begins in `start`.
  abbrev pub IsSent : List (Upload B) → S → Upload B → S → Type 0
  IsSent [] s v start = ⊥
  IsSent (u ∷ uploads) s v start =
      ((v ≡ u) × (start ≡ s))
      ⊎ IsSent uploads (bucket.put u.object_key u.blob Precondition.none s).1 v start

module _ {S B E : Type 0} (bucket : Bucket S B E) (laws : IsConditional S B E bucket) where
  -- One of the uploads put `v`, and its write took place during that call.
  abbrev pub IsStored : List (Upload B) → S → Upload B → Type 0
  IsStored uploads s v =
      (start : S) × IsSent bucket uploads s v start
      × Replaces laws.history v.object_key v.blob start
          (bucket.put v.object_key v.blob Precondition.none start).1

module _ {S B E H T : Type 0} ⦃h : Harness H⦄ (bucket : Bucket S B E)
    (laws : IsConditional S B E bucket) (codec : Codec S Bytes B H) (m : Machine S B H T) where
  upload_all-IsStored :
      (uploads : List (Upload B)) (s : S)
      → (upload_all bucket codec m uploads s).0 ≡ ok tt
      → All (IsStored bucket laws uploads s) uploads
  unfolding upload_all
  upload_all-IsStored [] s done = tt
  upload_all-IsStored (u ∷ uploads) s done =
      elim (Result-cases (bucket.put u.object_key u.blob Precondition.none s).0) [
        | inl (written, e) ↦
            let (replaces, _) = laws.put_replaces u.object_key u.blob Precondition.none s e in
            (
              (s, inl (refl, refl), replaces),
              All-map (λ v (start, sent, held). (start, inr sent, held)) uploads
                  (upload_all-IsStored uploads
                    (bucket.put u.object_key u.blob Precondition.none s).1
                    ((rw (upload_all, e) refl) ∙ done)),
            )
        | inr (failure, e) ↦
            let opened : err failure ≡ ok tt = (rw (upload_all, e) refl) ∙ done in absurd (cc)
      ]

  -- Each body that the commit adds to the catalog is new there; one of the uploads is of its object key
  -- and is the encryption of a document with the hash of the body; and it was stored during the call
  -- of `put` for that upload, where the uploads are made from the state `s` on.
  abbrev pub IsBacked : Catalog H → Catalog H → List (Upload B) → S → Type 0
  IsBacked base incoming uploads s =
      (harness : H) (id hash : Bytes)
      → has_body incoming harness id hash ≡ true
      → (has_body base harness id hash ≡ false)
        × ((u : Upload B) × Memᴰ u uploads
            × (object_key hash ≡ ok u.object_key)
            × Seals m.world codec.encrypt harness id hash u
            × IsStored bucket laws uploads s u)

  backed :
      (base incoming : Catalog H) (uploads : List (Upload B)) (s : S)
      → IsPlan (Seals m.world codec.encrypt) base incoming uploads
      → All (IsStored bucket laws uploads s) uploads
      → IsBacked base incoming uploads s
  backed base incoming uploads s plan held harness id hash e =
      let (u, among, named, seals) = plan.uploaded harness id hash e in
      (
        plan.fresh harness id hash e,
        (u, among, named, seals, Memᴰ-All (IsStored bucket laws uploads s) among held),
      )

  -- The state after the scan, and after the uploads, which is the one that the commit starts from.
  abbrev pub scanned_at : Catalog H → LocalStore H → S → S
  scanned_at base local s = (scan m.world codec.encrypt m.len m.atomic_write local base s).1

  -- Over a bucket whose successful writes take place during their calls, a run that returns has
  -- committed only bodies that the catalog lacked: the uploads succeeded; for each body one of them
  -- stored, during its call of `put`, the encryption of a document of that session with the hash of
  -- the body, under the object key of that hash; and the commit started in the state behind them.
  pub archive_from-IsBacked :
      (base : Catalog H) (local : LocalStore H) (s : S) (result : Scan H B × Catalog H)
      → (archive_from bucket codec m base local s).0 ≡ ok result
      → IsBacked base result.0.incoming result.0.uploads (scanned_at base local s)
        × ((upload_all bucket codec m result.0.uploads (scanned_at base local s)).0 ≡ ok tt)
        × ((commit_catalog bucket codec result.0.incoming
              (upload_all bucket codec m result.0.uploads (scanned_at base local s)).1).0
            ≡ ok result.1)
  unfolding archive_from
  archive_from-IsBacked base local s result done =
      let scanned = scan m.world codec.encrypt m.len m.atomic_write local base s in
      elim (Result-cases scanned.0) [
        | inl (found, e) ↦
            let plan =
              scan-IsPlan base m.world codec.encrypt m.len m.atomic_write local s found e in
            let uploaded = upload_all bucket codec m found.uploads scanned.1 in
            elim (Result-cases uploaded.0) [
              | inl (sent, u) ↦
                  let held = upload_all-IsStored found.uploads scanned.1 u in
                  let opened : ((commit_catalog bucket codec found.incoming uploaded.1).0
                        >>= (λ merged. ok (found, merged)))
                      ≡ ok result =
                    (rw (archive_from, e, u) refl) ∙ done in
                  let (merged, committed, last) =
                    >>=-eq-ok (commit_catalog bucket codec found.incoming uploaded.1).0
                      (λ merged. ok (found, merged)) opened in
                  subst
                    (λ r.
                      IsBacked base r.0.incoming r.0.uploads (scanned_at base local s)
                      × ((upload_all bucket codec m r.0.uploads (scanned_at base local s)).0
                          ≡ ok tt)
                      × ((commit_catalog bucket codec r.0.incoming
                            (upload_all bucket codec m r.0.uploads (scanned_at base local s)).1).0
                          ≡ ok r.1))
                    (ok_injective last)
                    (backed base found.incoming found.uploads scanned.1 plan held, u, committed)
              | inr (failure, u) ↦
                  let opened : err failure ≡ ok result = (rw (archive_from, e, u) refl) ∙ done in
                  absurd (cc)
            ]
        | inr (failure, e) ↦
            let opened : err failure ≡ ok result = (rw (archive_from, e) refl) ∙ done in absurd (cc)
      ]
