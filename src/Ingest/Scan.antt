-- ===== src/Ingest/Scan.antt =====
-- src/ingest.rs: `scan`, which reads the sessions that the catalog lacks, and `ingest`, which uploads
-- them before it commits the catalog.
pub mod Plan
pub mod Loop
use agent_transcript.Prelude.{
  ℕ, suc, ◌+◌, ◌*◌, Bytes, bytes_eq, Bool, true, false, not, ◌&&◌, ◌||◌, Option, none, some, List,
  [], ◌∷◌, ◌++◌, any, ltb, ◌==◌, leb, if◌then◌else◌, set_insert,
}
use agent_transcript.Harness.{Harness}
use agent_transcript.Errors.{Error, Result, ok, err, ◌>>=◌}
use agent_transcript.Freshness.{Freshness}
use agent_transcript.Fragment.{is_empty}
use agent_transcript.Catalog.{
  Revision, Catalog, empty, schema_version, object_key, merge_catalogs, hash_of,
}
use agent_transcript.Catalog
use agent_transcript.Document.{Content, new_document, content_hash, revision, encrypt_document}
use agent_transcript.Sources.{Load, read, transient, broken, load}
use agent_transcript.LocalState.{
  LocalStore, SourceRecord, World, State, Complaint, empty_id, not_now, unreadable, is_ready,
  sources_of, save_if_dirty, note_swept,
}
use agent_transcript.LocalState.Diff.{diff}
use agent_transcript.Bucket.{Bucket, Precondition}
use agent_transcript.Remote.{Codec, load_catalog, commit_catalog}
use agent_transcript.Ingest.{Footprint, sweep}

-- `SWEEP_INTERVAL`, in nanoseconds.
abbrev pub sweep_interval : ℕ
sweep_interval = 3600 * 1000000000

-- `sweep_due`: a last sweep in the future is due too.
unfoldable pub sweep_due : (now : ℕ) → Option ℕ → Bool
sweep_due now none = true
sweep_due now (some last) = ltb now last || leb (last + sweep_interval) now

pub record Upload (B : Type 0) : Type 0 where
  pub object_key : Bytes
  pub blob : B

-- The variables of the loop in `scan`.
pub record Progress (H B : Type 0) : Type 0 where
  pub known : List (H × Bytes × Bytes)
  pub uploads : List (Upload B)
  pub incoming : Catalog H
  pub unchanged : ℕ
  pub failures : List (Complaint H)
  pub changed_repos : List Bytes

pub record Scan (H B : Type 0) : Type 0 where
  pub uploads : List (Upload B)
  pub incoming : Catalog H
  pub local : LocalStore H
  pub unchanged : ℕ
  pub read : ℕ
  pub missing_cwd : ℕ
  pub failures : List (Complaint H)
  pub changed_repos : List Bytes
  pub all_repos : List Bytes

-- The inner loop of `catalog_index`.
abbrev pub revision_keys : {H : Type 0} → H → Bytes → List Revision → List (H × Bytes × Bytes)
revision_keys harness id [] = []
revision_keys harness id (r ∷ revisions) =
    (harness, id, hash_of r) ∷ revision_keys harness id revisions

abbrev pub session_keys : {H : Type 0} → List (Catalog.SessionRecord H) → List (H × Bytes × Bytes)
session_keys [] = []
session_keys (s ∷ sessions) =
    revision_keys s.harness s.session_id s.revisions ++ session_keys sessions

unfoldable pub catalog_index : {H : Type 0} → Catalog H → List (H × Bytes × Bytes)
catalog_index catalog = session_keys catalog.sessions

-- `all_repos`
unfoldable pub repos_of : {H : Type 0} → List (Bytes × SourceRecord H) → List Bytes
repos_of [] = []
repos_of ((k, r) ∷ records) =
    let rest = repos_of records in
    elim r.repo_key [ none ↦ rest | some repo ↦ set_insert repo rest ]

module _ {H B : Type 0} where
  unfoldable pub start : LocalStore H → Catalog H → Progress H B
  unfolding catalog_index
  start local catalog = record {
    known = catalog_index catalog;
    uploads = [];
    incoming = empty H;
    unchanged = 0;
    failures = local.report.failures;
    changed_repos = local.report.changed_repos;
  }

  unfoldable pub finish_scan : LocalStore H → Progress H B → Scan H B
  unfolding repos_of
  finish_scan local p = record {
    uploads = p.uploads;
    incoming = p.incoming;
    local = local;
    unchanged = p.unchanged;
    read = local.report.loaded;
    missing_cwd = local.report.missing_cwd;
    failures = p.failures;
    changed_repos = p.changed_repos;
    all_repos = repos_of (sources_of local);
  }

module _ {H : Type 0} ⦃h : Harness H⦄ where
  -- `known.contains`
  abbrev pub is_known : List (H × Bytes × Bytes) → H → Bytes → Bytes → Bool
  is_known known harness id hash =
      any (λ k. (h.beq k.0 harness && bytes_eq k.1 id) && bytes_eq k.2 hash) known

  unfoldable pub fail_with : {B : Type 0} → Complaint H → Progress H B → Progress H B
  fail_with c p = record p { failures = p.failures ++ c ∷ [] }

  unfoldable pub count_unchanged : {B : Type 0} → Progress H B → Progress H B
  count_unchanged p = record p { unchanged = p.unchanged + 1 }

  -- The catalog of one revision that is merged into `incoming`.
  unfoldable pub piece_of : H → Bytes → Bytes → Revision → Catalog H
  piece_of harness repo_key id r = record {
    schema = schema_version;
    sessions =
        record { repo_key = repo_key; harness = harness; session_id = id; revisions = r ∷ [] } ∷ [];
  }

module _ {S B H T : Type 0} ⦃h : Harness H⦄ (w : World H T)
    (encrypt : Bytes → Bytes → S → Result B × S) (len : B → ℕ) where
  -- What follows on the encrypted document.
  unfoldable pub queue :
      SourceRecord H → Bytes → T → Bytes → Bytes → B → Progress H B → Result (Progress H B)
  unfolding piece_of
  queue r repo_key t hash key blob p = do
    rev ←
        revision w.content (new_document r.harness repo_key t) hash r.freshness.updated_at
          (len blob)
    merged ← merge_catalogs p.incoming (piece_of r.harness repo_key (w.content.transcript t).id rev)
    ok (record {
      known = (r.harness, (w.content.transcript t).id, hash) ∷ p.known;
      uploads = p.uploads ++ record { object_key = key; blob = blob } ∷ [];
      incoming = merged;
      unchanged = p.unchanged;
      failures = p.failures;
      changed_repos = set_insert repo_key p.changed_repos;
    })

  -- The hash, the object key and the encryption of a body that was read.
  unfoldable pub seal :
      SourceRecord H → Bytes → T → Bytes → Progress H B → S → Result (Progress H B) × S
  unfolding queue
  seal r repo_key t hash p s = elim (object_key hash) [
    | err e ↦ (err e, s)
    | ok key ↦
        let (sealed, s') =
          encrypt_document w.content encrypt key (new_document r.harness repo_key t) s in
        (do blob ← sealed; queue r repo_key t hash key blob p, s')
  ]

  -- The arm for a body that was read.
  unfoldable pub take_body :
      SourceRecord H → Bytes → T → Progress H B → S → Result (Progress H B) × S
  unfolding fail_with count_unchanged seal
  take_body r repo_key t p s =
      let id = (w.content.transcript t).id in
      if is_empty id
      then (ok (fail_with (empty_id r.harness r.source) p), s)
      else elim (content_hash w.content (new_document r.harness repo_key t)) [
        | err e ↦ (err e, s)
        | ok hash ↦
            if is_known p.known r.harness id hash
            then (ok (count_unchanged p), s)
            else seal r repo_key t hash p s
      ]

  unfoldable pub visit_known : SourceRecord H → Bytes → Progress H B → S → Result (Progress H B) × S
  unfolding fail_with count_unchanged take_body
  visit_known r repo_key p s =
      if is_known p.known r.harness r.session_id r.freshness.content_hash
      then (ok (count_unchanged p), s)
      else elim (load w.sites r.harness r.source) [
        | read t ↦ take_body r repo_key t p s
        | transient message ↦ (ok (fail_with (not_now r.harness r.source message) p), s)
        | broken message ↦ (ok (fail_with (unreadable r.harness r.source message) p), s)
      ]

  -- One round of the loop.
  unfoldable pub visit : SourceRecord H → Progress H B → S → Result (Progress H B) × S
  unfolding visit_known
  visit r p s =
      if not (is_ready r.state)
      then (ok p, s)
      else elim r.repo_key [ none ↦ (ok p, s) | some repo_key ↦ visit_known r repo_key p s ]

  unfoldable pub scan_loop :
      List (Bytes × SourceRecord H) → Progress H B → S → Result (Progress H B) × S
  unfolding visit
  scan_loop [] p s = (ok p, s)
  scan_loop ((k, r) ∷ records) p s =
      let (visited, s') = visit r p s in
      elim visited [ err e ↦ (err e, s') | ok p' ↦ scan_loop records p' s' ]

  -- `atomic_write` writes the state file.
  unfoldable pub scan :
      (State H → S → Result (Unit {0}) × S) → LocalStore H → Catalog H → S → Result (Scan H B) × S
  unfolding scan_loop start finish_scan
  scan atomic_write local catalog s =
      let (saved, s') = save_if_dirty atomic_write (diff w local) s in
      elim saved [
        | err e ↦ (err e, s')
        | ok local' ↦
            let (looped, s'') = scan_loop (sources_of local') (start local' catalog) s' in
            (do p ← looped; ok (finish_scan local' p), s'')
      ]
