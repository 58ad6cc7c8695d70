-- ===== src/Ingest/Run.antt =====
-- src/ingest.rs: `ingest`, without its lock, its configuration and its prints. The rebuilding of the
-- search indexes is a parameter.
pub mod Stored
use agent_transcript.Prelude.{
  ℕ, suc, ◌+◌, Bytes, ◌≡◌, ◌⊎◌, refl, inl, inr, sym, ap, ◌∙◌, subst, Bool, true, false, not, ◌&&◌,
  ◌||◌, Option, none, some, List, [], ◌∷◌, ◌++◌, length, ◌==◌, if◌then◌else◌, set_has, set_insert,
  All,
}
use agent_transcript.Harness.{Harness}
use agent_transcript.Errors.{Error, Result, ok, err, msg, not_archived, ◌>>=◌, Result-cases}
use agent_transcript.Catalog.{Catalog}
use agent_transcript.LocalState.{LocalStore, World, State, save_if_dirty, note_swept}
use agent_transcript.Bucket.{Bucket, Precondition}
use agent_transcript.Remote.{Codec, load_catalog, commit_catalog}
use agent_transcript.Ingest.{Footprint, sweep}
use agent_transcript.Ingest.Scan.{Upload, Scan, scan, sweep_due}

-- What ingest needs of its surroundings beside the bucket and the archive's key.
pub record Machine (S B H T : Type 0) : Type 0 where
  pub world : World H T
  -- the length of an encrypted body
  pub len : B → ℕ
  -- the state file
  pub atomic_write : State H → S → Result (Unit {0}) × S
  -- `search_index::local_path(..).is_file()` and `search_index::build_for_repo`
  pub has_index : Bytes → Bool
  pub build_for_repo : Bytes → LocalStore H → Catalog H → S → S

-- The repositories whose index is rebuilt: those that changed, and those without an index.
unfoldable pub index_repos : (Bytes → Bool) → (all_repos changed_repos : List Bytes) → List Bytes
index_repos has_index [] repos = repos
index_repos has_index (r ∷ all_repos) repos =
    index_repos has_index all_repos
      (if not (set_has r repos) && not (has_index r) then set_insert r repos else repos)

-- `if let Err(error) = local.save_if_dirty()`
abbrev saved_or_same : {H : Type 0} → LocalStore H → Result (LocalStore H) → LocalStore H
saved_or_same local (ok saved) = saved
saved_or_same local (err e) = local

module _ {S B E H T : Type 0} ⦃h : Harness H⦄ (bucket : Bucket S B E) (codec : Codec S Bytes B H)
    (m : Machine S B H T) where
  -- The loop of the uploads.
  unfoldable pub upload_all : List (Upload B) → S → Result (Unit {0}) × S
  upload_all [] s = (ok tt, s)
  upload_all (u ∷ uploads) s =
      let (written, s') = bucket.put u.object_key u.blob Precondition.none s in
      elim written [ err e ↦ (err e, s') | ok done ↦ upload_all uploads s' ]

  -- From the catalog that was read to the one that was committed.
  unfoldable pub archive_from : Catalog H → LocalStore H → S → Result (Scan H B × Catalog H) × S
  unfolding upload_all
  archive_from catalog local s =
      let (scanned, s1) = scan m.world codec.encrypt m.len m.atomic_write local catalog s in
      elim scanned [
        | err e ↦ (err e, s1)
        | ok found ↦
            let (uploaded, s2) = upload_all found.uploads s1 in
            elim uploaded [
              | err e ↦ (err e, s2)
              | ok done ↦
                  let (committed, s3) = commit_catalog bucket codec found.incoming s2 in
                  (do merged ← committed; ok (found, merged), s3)
            ]
      ]

  unfoldable pub archive : LocalStore H → S → Result (Scan H B × Catalog H) × S
  unfolding archive_from
  archive local s =
      let (loaded, s') = load_catalog bucket codec s in
      elim loaded [ err e ↦ (err e, s') | ok (catalog, etag) ↦ archive_from catalog local s' ]

  -- The sweep that is due, whose error is only printed.
  unfoldable pub sweep_if_due : LocalStore H → S → LocalStore H × S
  sweep_if_due local s =
      let (swept, s') = sweep bucket codec m.world.content.sha256_hex m.world.now s in
      if sweep_due m.world.now local.state.last_sweep
      then elim swept [
        | err e ↦ (local, s')
        | ok f ↦
            let noted = note_swept m.world.now local in
            let (saved, s'') = save_if_dirty m.atomic_write noted s' in
            (saved_or_same noted saved, s'')
      ]
      else (local, s)

  build_all : List Bytes → LocalStore H → Catalog H → S → S
  build_all [] local catalog s = s
  build_all (r ∷ repos) local catalog s =
      build_all repos local catalog (m.build_for_repo r local catalog s)

  unfoldable pub ingest : LocalStore H → S → Result (Unit {0}) × S
  unfolding archive sweep_if_due build_all index_repos
  ingest local s =
      let (archived, s1) = archive local s in
      elim archived [
        | err e ↦ (err e, s1)
        | ok (found, catalog) ↦
            let (swept, s2) = sweep_if_due found.local s1 in
            let s3 =
              build_all (index_repos m.has_index found.all_repos found.changed_repos) swept catalog
                s2 in
            let (_, s4) = save_if_dirty m.atomic_write swept s3 in
            (
              if length found.failures == 0
                  then ok tt
                  else err (msg (not_archived (length found.failures))),
              s4,
            )
      ]
