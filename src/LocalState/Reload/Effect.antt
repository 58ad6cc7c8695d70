-- ===== src/LocalState/Reload/Effect.antt =====
-- src/local_state.rs: what `reload` and `retain` do to the records and to the changed repositories.
use agent_transcript.Prelude.{
  ℕ, Bytes, ◌≡◌, refl, ap, ◌∙◌, inl, inr, ◌⊎◌, true, false, Option, none, some, [], ◌∷◌, lookup,
  map_insert, set_has, if◌then◌else◌,
}
use agent_transcript.Harness.{Harness}
use agent_transcript.Document.{of_body, content_hash, new_document}
use agent_transcript.Errors.{Result}
use agent_transcript.Fragment.{is_empty}
use agent_transcript.Sources.{Load-cases, Failure, transient, load}
use agent_transcript.LocalState.{
  LocalStore, World, SourceRecord, RecordState, ready, pending, SessionRepo, complain, not_now,
  unreadable, sources_of, is_some, is_ready,
}
use agent_transcript.LocalState.Reload.{
  source_key, resolve_repo, reload, report_repo, keep_record, record_of, accept, broken_record,
  was_pending, placed,
}
use agent_transcript.LocalState.Reload.Records.{
  Knows, SameRecords, resolve_repo-SameRecords, report_repo-SameRecords, noted_by, noted_by-has,
  noted_by-knows, accept-sources, accept-changed,
}

-- What a record says about itself, by its state.
abbrev pub IsSettled : RecordState → Option Bytes → Bytes → Bytes → Type 0
IsSettled ready repo_key session_id hash = (is_some repo_key ≡ true) × (is_empty session_id ≡ false)
IsSettled pending repo_key session_id hash =
    (repo_key ≡ none) × (is_empty session_id ≡ false) × (hash ≡ [])
IsSettled RecordState.broken repo_key session_id hash = is_empty session_id ≡ true

-- What stays when the state is settled by the id of the session.
placed-IsSettled :
    (content_hash : Bytes → Result Bytes) (repo : SessionRepo) (id : Bytes)
    → IsSettled
        (if is_empty id then RecordState.broken else (placed content_hash repo).2)
        (placed content_hash repo).0
        id
        (placed content_hash repo).1
unfolding placed
placed-IsSettled content_hash (SessionRepo.key k) [] = refl
placed-IsSettled content_hash (SessionRepo.key k) (c ∷ id) = (refl, refl)
placed-IsSettled content_hash SessionRepo.missing_cwd [] = refl
placed-IsSettled content_hash SessionRepo.missing_cwd (c ∷ id) = (refl, refl, refl)
placed-IsSettled content_hash (SessionRepo.unresolved e) [] = refl
placed-IsSettled content_hash (SessionRepo.unresolved e) (c ∷ id) = (refl, refl, refl)

-- A record was stored for the source, and its repository is a changed one when it is ready.
pub record Stored {H : Type 0} ⦃h : Harness H⦄ (harness : H) (source fingerprint : Bytes)
    (s s' : LocalStore H) : Type 0 where
  pub new : SourceRecord H
  pub harness_eq : new.harness ≡ harness
  pub source_eq : new.source ≡ source
  pub fingerprint_eq : new.fingerprint ≡ fingerprint
  pub settled : IsSettled new.state new.repo_key new.session_id new.freshness.content_hash
  pub stored : sources_of s' ≡ map_insert (source_key harness source) new (sources_of s)
  pub noted :
      (k : Bytes)
      → is_ready new.state ≡ true
      → new.repo_key ≡ some k
      → set_has k s'.report.changed_repos ≡ true
  pub knows : Knows s s'

module _ {H T : Type 0} ⦃h : Harness H⦄ (w : World H T) (harness : H) (source fingerprint : Bytes)
    (updated_at : Option ℕ) where
  accept-Stored :
      (t : T) (repo : SessionRepo) (s s1 : LocalStore H)
      → SameRecords s s1
      → Stored harness source fingerprint s
          (accept harness source (record_of w harness source fingerprint updated_at t repo) s1)
  unfolding record_of of_body
  accept-Stored t repo s s1 (sources, changed) =
      let r = record_of w harness source fingerprint updated_at t repo in
      let after : (accept harness source r s1).report.changed_repos
          ≡ noted_by (is_ready r.state) r.repo_key s.report.changed_repos =
        accept-changed harness source r s1 ∙ ap (noted_by (is_ready r.state) r.repo_key) changed in
      record {
        new = r;
        harness_eq = refl;
        source_eq = refl;
        fingerprint_eq = refl;
        settled =
            placed-IsSettled (λ k. content_hash w.content (new_document harness k t)) repo
              (w.content.transcript t).id;
        stored =
            accept-sources harness source r s1
            ∙ ap (map_insert (source_key harness source) r) sources;
        noted = λ k e f.
            ap (set_has k) after
            ∙ noted_by-has (is_ready r.state) r.repo_key s.report.changed_repos k e f;
        knows = λ k e.
            ap (set_has k) after
            ∙ noted_by-knows (is_ready r.state) r.repo_key s.report.changed_repos k e;
      }

  broken-Stored :
      (message : Failure) (s : LocalStore H)
      → Stored harness source fingerprint s (
          complain (unreadable harness source message) (
            keep_record
              (source_key harness source)
              (broken_record w harness source fingerprint updated_at)
              s))
  unfolding broken_record keep_record sources_of is_ready
  broken-Stored message s = record {
    new = broken_record w harness source fingerprint updated_at;
    harness_eq = refl;
    source_eq = refl;
    fingerprint_eq = refl;
    settled = refl;
    stored = refl;
    noted = λ k e f. absurd (cc);
    knows = λ k e. e;
  }

  answered :
      (t : T) (s : LocalStore H)
      → SameRecords s (
          report_repo harness source
            (was_pending (lookup (source_key harness source) (sources_of s)) fingerprint)
            (resolve_repo w (w.content.transcript t).info.cwd s).0
            (resolve_repo w (w.content.transcript t).info.cwd s).1)
  answered t s =
      let (repo, s') = resolve_repo w (w.content.transcript t).info.cwd s in
      let (p, q) = resolve_repo-SameRecords w (w.content.transcript t).info.cwd s in
      let (p', q') =
        report_repo-SameRecords harness source
          (was_pending (lookup (source_key harness source) (sources_of s)) fingerprint) repo s' in
      (p' ∙ p, q' ∙ q)

  -- A reload that does not fail transiently stores a record; one that does keeps the store.
  pub reload-effect :
      (s : LocalStore H)
      → ((message : Failure) × (load w.sites harness source ≡ transient message)
          × (reload w harness source fingerprint updated_at s
              ≡ complain (not_now harness source message) s))
        ⊎ Stored harness source fingerprint s (reload w harness source fingerprint updated_at s)
  unfolding reload
  reload-effect s = elim (Load-cases (load w.sites harness source)) [
    | inl (t, e) ↦
        rw (reload, e)
          (inr (
            accept-Stored t (resolve_repo w (w.content.transcript t).info.cwd s).0 s
              (report_repo harness source
                (was_pending (lookup (source_key harness source) (sources_of s)) fingerprint)
                (resolve_repo w (w.content.transcript t).info.cwd s).0
                (resolve_repo w (w.content.transcript t).info.cwd s).1)
              (answered t s)))
    | inr (inl (m, e)) ↦ rw (reload, e) (inl (m, refl, refl))
    | inr (inr (m, e)) ↦ rw (reload, e) (inr (broken-Stored m s))
  ]
