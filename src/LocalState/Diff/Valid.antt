-- ===== src/LocalState/Diff/Valid.antt =====
-- src/local_state.rs: which records a diff leaves in the store.
use agent_transcript.Prelude.{
  ℕ, Bytes, ◌≡◌, refl, sym, subst, inl, inr, Bool, Option, All, All-map_insert, All-keep_if,
  keep_if, length, ◌==◌,
}
use agent_transcript.Harness.{Harness}
use agent_transcript.LocalState.{LocalStore, World, SourceRecord, sources_of}
use agent_transcript.LocalState.Reload.{source_key, resolve_afresh, reload}
use agent_transcript.LocalState.Reload.Effect.{IsSettled, Stored, reload-effect}
use agent_transcript.LocalState.Reload.Records.{if-holds}
use agent_transcript.LocalState.Diff.{retain, note_db, diff}
use agent_transcript.LocalState.Diff.Preserved.{IsPreserved, diff-preserves}

module _ {H : Type 0} where
  pub sources-retain :
      (kept noted : Bytes → Bool) (s : LocalStore H)
      → sources_of (retain kept noted s) ≡ keep_if (λ e. kept e.0) (sources_of s)
  unfolding retain sources_of
  sources-retain kept noted s =
      if-holds (λ t. sources_of t ≡ keep_if (λ e. kept e.0) (sources_of s))
        (length (keep_if (λ e. kept e.0) (sources_of s)) == length (sources_of s)) _ _ refl refl

module _ {H : Type 0} ⦃h : Harness H⦄ where
  -- The key of a record is that of its harness and source, and the record is settled.
  abbrev pub IsRecord : Bytes × SourceRecord H → Type 0
  IsRecord e =
      (e.0 ≡ source_key e.1.harness e.1.source)
      × IsSettled e.1.state e.1.repo_key e.1.session_id e.1.freshness.content_hash

  abbrev pub IsValid : LocalStore H → Type 0
  IsValid s = All IsRecord (sources_of s)

module _ {H T : Type 0} ⦃h : Harness H⦄ (w : World H T) (P : Bytes × SourceRecord H → Type 0) where
  pub reload-All :
      (harness : H) (source fingerprint : Bytes) (updated_at : Option ℕ) (s : LocalStore H)
      → ((s' : LocalStore H) (new : Stored harness source fingerprint s s')
          → P (source_key harness source, new.new))
      → All P (sources_of s)
      → All P (sources_of (reload w harness source fingerprint updated_at s))
  unfolding sources_of
  reload-All harness source fingerprint updated_at s stored ps =
      elim (reload-effect w harness source fingerprint updated_at s) [
        | inl (m, failed, same) ↦ subst (λ t. All P (sources_of t)) (sym same) ps
        | inr new ↦ subst (All P) (sym new.stored) (
            All-map_insert P (source_key harness source) new.new (sources_of s)
              (stored (reload w harness source fingerprint updated_at s) new) ps)
      ]

  -- A predicate on every record is preserved when each stored record has it.
  by_records :
      ((harness : H) (source fingerprint : Bytes) (s s' : LocalStore H)
          (new : Stored harness source fingerprint s s')
        → P (source_key harness source, new.new))
      → IsPreserved w (λ s. All P (sources_of s))
  unfolding sources_of resolve_afresh note_db
  by_records stored = record {
    by_reload = λ harness source fingerprint updated_at s ps.
        reload-All harness source fingerprint updated_at s (stored harness source fingerprint s) ps;
    by_resolve = λ dir s ps. ps;
    by_retain = λ kept noted s ps.
        subst (All P) (sym (sources-retain kept noted s))
          (All-keep_if P (λ e. kept e.0) (sources_of s) ps);
    by_complain = λ c s ps. ps;
    by_note = λ site_key fingerprint s ps. ps;
  }

module _ {H : Type 0} ⦃h : Harness H⦄ where
  pub Stored-IsRecord :
      (harness : H) (source fingerprint : Bytes) (s s' : LocalStore H)
      (new : Stored harness source fingerprint s s')
      → IsRecord (source_key harness source, new.new)
  Stored-IsRecord harness source fingerprint s s' new =
      (rw (new.harness_eq, new.source_eq) refl, new.settled)

module _ {H T : Type 0} ⦃h : Harness H⦄ (w : World H T) where
  pub IsValid-steps : IsPreserved w IsValid
  IsValid-steps = by_records w IsRecord Stored-IsRecord

  -- A diff keeps the invariant of the records.
  pub diff-IsValid : (s : LocalStore H) → IsValid s → IsValid (diff w s)
  unfolding sources_of
  diff-IsValid s valid = diff-preserves w IsValid IsValid-steps s valid
