-- ===== src/Ingest/Scan/Plan.antt =====
-- src/ingest.rs: what `scan` uploads, against what it adds to the catalog.
use agent_transcript.Prelude.{
  Bytes, bytes_eq, bytes_eq_iff, bytes_eq_refl, ◌≡◌, refl, ap, ◌∙◌, ◌⊎◌, inl, inr, Bool, true,
  false, ◌&&◌, ◌||◌, List, [], ◌∷◌, ◌++◌, Memᴰ, any, any-append, Bool-cases, All, All-map,
  All-append, arith,
}
use mathlib.Core.List.Memᴰ
use agent_transcript.Harness.{Harness}
use agent_transcript.Errors.{ok}
use agent_transcript.Catalog.{
  Revision, Catalog, empty, object_key, merge_catalogs, hash_of, has_hash,
}
use agent_transcript.Catalog
use agent_transcript.Catalog.Union.{holds, merge_catalogs-holds}
use agent_transcript.LocalState.{LocalStore}
use agent_transcript.Ingest.Scan.{
  revision_keys, session_keys, Upload, Progress, catalog_index, is_known, piece_of, start,
}

module _ {H : Type 0} ⦃h : Harness H⦄ where
  -- The catalog has a body of the session.
  abbrev pub has_body : Catalog H → H → Bytes → Bytes → Bool
  has_body c harness id hash = any (holds harness id hash) c.sessions

  index-is_known :
      (base : Catalog H) (harness : H) (id hash : Bytes)
      → is_known (catalog_index base) harness id hash ≡ has_body base harness id hash
  unfolding catalog_index
  index-is_known base harness id hash = sessions-is_known base.sessions
    where
      revisions-is_known :
          (harness' : H) (id' : Bytes) (revisions : List Revision)
          → is_known (revision_keys harness' id' revisions) harness id hash
            ≡ ((h.beq harness' harness && bytes_eq id' id) && has_hash hash revisions)
      revisions-is_known harness' id' [] = ground arith
      revisions-is_known harness' id' (r ∷ revisions) =
          ground (arith, revisions-is_known harness' id' revisions)

      sessions-is_known :
          (sessions : List (Catalog.SessionRecord H))
          → is_known (session_keys sessions) harness id hash ≡ any (holds harness id hash) sessions
      sessions-is_known [] = refl
      sessions-is_known (s ∷ sessions) =
          any-append (λ k. (h.beq k.0 harness && bytes_eq k.1 id) && bytes_eq k.2 hash)
            (revision_keys s.harness s.session_id s.revisions) (session_keys sessions)
          ∙ (rw (revisions-is_known s.harness s.session_id s.revisions, sessions-is_known sessions)
              refl)

  piece-has_body :
      (harness : H) (repo_key id : Bytes) (r : Revision) (harness' : H) (id' hash' : Bytes)
      → has_body (piece_of harness repo_key id r) harness' id' hash'
        ≡ ((h.beq harness harness' && bytes_eq id id') && bytes_eq (hash_of r) hash')
  unfolding piece_of
  piece-has_body harness repo_key id r harness' id' hash' = ground arith

  same_key :
      (harness : H) (id hash : Bytes) (harness' : H) (id' hash' : Bytes)
      → ((h.beq harness harness' && bytes_eq id id') && bytes_eq hash hash') ≡ true
      → (harness ≡ harness') × (id ≡ id') × (hash ≡ hash')
  same_key harness id hash harness' id' hash' e = (
    (h.beq_iff harness harness').0 (ground (arith, e)),
    (bytes_eq_iff id id').0 (ground (arith, e)),
    (bytes_eq_iff hash hash').0 (ground (arith, e)),
  )

module _ {H B : Type 0} ⦃h : Harness H⦄ where
  -- The upload is for a body of `incoming`.
  abbrev pub IsWanted : Catalog H → Upload B → Type 0
  IsWanted incoming u =
      (harness : H) × (id : Bytes) × (hash : Bytes) × (has_body incoming harness id hash ≡ true)
      × (object_key hash ≡ ok u.object_key)

-- `Seals harness id hash u` says what the upload has to be for a body.
module _ {H B : Type 0} ⦃h : Harness H⦄ (Seals : H → Bytes → Bytes → Upload B → Type 0) where
  -- What holds of the bodies to commit and of the uploads, when the catalog is `base`.
  pub record IsPlan (base incoming : Catalog H) (uploads : List (Upload B)) : Type 0 where
    -- nothing that is archived is uploaded again
    pub fresh :
        (harness : H) (id hash : Bytes)
        → has_body incoming harness id hash ≡ true
        → has_body base harness id hash ≡ false
    -- the object of each body to commit is uploaded
    pub uploaded :
        (harness : H) (id hash : Bytes)
        → has_body incoming harness id hash ≡ true
        → (u : Upload B) × Memᴰ u uploads
          × (object_key hash ≡ ok u.object_key)
          × Seals harness id hash u
    -- and nothing else is
    pub wanted : All (IsWanted incoming) uploads

module _ {H B : Type 0} ⦃h : Harness H⦄ (Seals : H → Bytes → Bytes → Upload B → Type 0)
    (base : Catalog H) where
  -- The invariant of the loop: `known` has what is archived and what is to be committed.
  abbrev pub IsTracked : Progress H B → Type 0
  IsTracked p =
      ((harness : H) (id hash : Bytes)
        → is_known p.known harness id hash
          ≡ has_body base harness id hash || has_body p.incoming harness id hash)
      × IsPlan Seals base p.incoming p.uploads

  pub start-IsTracked : (local : LocalStore H) → IsTracked (start local base)
  unfolding start empty
  start-IsTracked local = (
    λ harness id hash. rw (index-is_known base harness id hash) (ground arith),
    record {
      fresh = λ harness id hash e. absurd (cc);
      uploaded = λ harness id hash e. absurd (cc);
      wanted = tt;
    },
  )

module _ {H B : Type 0} ⦃h : Harness H⦄ (Seals : H → Bytes → Bytes → Upload B → Type 0)
    (base : Catalog H) (p : Progress H B) (tracked : IsTracked Seals base p) (harness : H)
    (repo_key id hash key : Bytes) (blob : B) (r : Revision) (merged : Catalog H)
    (new : is_known p.known harness id hash ≡ false) (has_key : object_key hash ≡ ok key)
    (same : hash_of r ≡ hash)
    (done : merge_catalogs p.incoming (piece_of harness repo_key id r) ≡ ok merged) where
  -- The body is the one that is added.
  abbrev is_new : H → Bytes → Bytes → Bool
  is_new harness' id' hash' = (h.beq harness harness' && bytes_eq id id') && bytes_eq hash hash'

  merged-has_body :
      (harness' : H) (id' hash' : Bytes)
      → has_body merged harness' id' hash'
        ≡ (has_body p.incoming harness' id' hash' || is_new harness' id' hash')
  merged-has_body harness' id' hash' =
      merge_catalogs-holds harness' id' hash' p.incoming (piece_of harness repo_key id r) merged
        done
      ∙ ap (λ b. has_body p.incoming harness' id' hash' || b)
          (piece-has_body harness repo_key id r harness' id' hash'
            ∙ ap (λ x. (h.beq harness harness' && bytes_eq id id') && bytes_eq x hash') same)

  new-fresh :
      (harness' : H) (id' hash' : Bytes)
      → is_new harness' id' hash' ≡ true
      → has_body base harness' id' hash' ≡ false
  new-fresh harness' id' hash' e =
      let (same_harness, same_id, same_hash) = same_key harness id hash harness' id' hash' e in
      let unknown : is_known p.known harness' id' hash' ≡ false =
        rw⁻¹ (same_harness, same_id, same_hash) new in
      ground (arith, tracked.0 harness' id' hash', unknown)

  pub queued-known :
      (harness' : H) (id' hash' : Bytes)
      → is_known ((harness, id, hash) ∷ p.known) harness' id' hash'
        ≡ (has_body base harness' id' hash' || has_body merged harness' id' hash')
  queued-known harness' id' hash' =
      rw (tracked.0 harness' id' hash', merged-has_body harness' id' hash') (ground arith)

  body-cases :
      (harness' : H) (id' hash' : Bytes)
      → has_body merged harness' id' hash' ≡ true
      → (has_body p.incoming harness' id' hash' ≡ true) ⊎ (is_new harness' id' hash' ≡ true)
  body-cases harness' id' hash' e = elim (Bool-cases (has_body p.incoming harness' id' hash')) [
    | inl old ↦ inl old
    | inr added ↦ inr (ground (arith, e, merged-has_body harness' id' hash', added))
  ]

  pub queued-IsPlan :
      Seals harness id hash (record { object_key = key; blob = blob })
      → IsPlan Seals base merged (p.uploads ++ record { object_key = key; blob = blob } ∷ [])
  queued-IsPlan sealed =
      let upload : Upload B = record { object_key = key; blob = blob } in
      record {
        fresh = λ harness' id' hash' e. elim (body-cases harness' id' hash' e) [
          | inl old ↦ tracked.1.fresh harness' id' hash' old
          | inr added ↦ new-fresh harness' id' hash' added
        ];
        uploaded = λ harness' id' hash' e. elim (body-cases harness' id' hash' e) [
          | inl old ↦
              let (u, among, named, seals) = tracked.1.uploaded harness' id' hash' old in
              (u, Memᴰ.append_left (upload ∷ []) among, named, seals)
          | inr added ↦
              let (same_harness, same_id, same_hash) =
                same_key harness id hash harness' id' hash' added in
              (
                upload,
                Memᴰ.append_right p.uploads (Memᴰ.head refl),
                rw⁻¹ same_hash has_key,
                rw⁻¹ (same_harness, same_id, same_hash) sealed,
              )
        ];
        wanted =
            All-append (IsWanted merged) p.uploads (upload ∷ [])
              (All-map
                (λ u (harness', id', hash', there, named). (
                  harness',
                  id',
                  hash',
                  rw (merged-has_body harness' id' hash', there) refl,
                  named,
                ))
                p.uploads tracked.1.wanted)
              (
                (
                  harness,
                  id,
                  hash,
                  rw (merged-has_body harness id hash) (
                      ground (
                        arith,
                        (h.beq_iff harness harness).1 refl,
                        bytes_eq_refl id,
                        bytes_eq_refl hash,
                      )),
                  has_key,
                ),
                tt,
              );
      }
