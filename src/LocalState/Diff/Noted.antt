-- ===== src/LocalState/Diff/Noted.antt =====
-- src/local_state.rs: the changed repositories that a diff reports.
use agent_transcript.Prelude.{
  Bytes, bytes_eq, bytes_eq_sound, ◌≡◌, sym, ap, ◌∙◌, subst, inl, inr, ◌⊎◌, Bool, true, ◌==◌, none,
  some, lookup, map_insert, lookup-map_insert, lookup-map_insert_other, lookup-keep_if, keep_if,
  length, set_has, set_has-set_extend, if◌then◌else◌, Bool-cases, arith,
}
use agent_transcript.Harness.{Harness}
use agent_transcript.LocalState.{LocalStore, World, SourceRecord, sources_of, is_ready}
use agent_transcript.LocalState.Reload.{source_key, resolve_afresh, reload}
use agent_transcript.LocalState.Reload.Effect.{Stored, reload-effect}
use agent_transcript.LocalState.Reload.Records.{Knows, if-holds}
use agent_transcript.LocalState.Diff.{retain, note_db, diff, removed_repos}
use agent_transcript.LocalState.Diff.Preserved.{IsPreserved, diff-preserves}
use agent_transcript.LocalState.Diff.Valid.{sources-retain}

module _ {H : Type 0} where
  -- A ready record of `s` is one of `before`, or its repository is among the changed ones.
  abbrev pub Noted : LocalStore H → LocalStore H → Type 0
  Noted before s =
      (k : Bytes) (r : SourceRecord H) (repo : Bytes)
      → lookup k (sources_of s) ≡ some r
      → is_ready r.state ≡ true
      → r.repo_key ≡ some repo
      → (lookup k (sources_of before) ≡ some r) ⊎ (set_has repo s.report.changed_repos ≡ true)

  retain-Knows : (kept noted : Bytes → Bool) (s : LocalStore H) → Knows s (retain kept noted s)
  unfolding retain
  retain-Knows kept noted s k known =
      if-holds (λ t. set_has k t.report.changed_repos ≡ true)
        (length (keep_if (λ e. kept e.0) (sources_of s)) == length (sources_of s)) _ _ known
        (rw
          (
            set_has-set_extend k (removed_repos kept noted (sources_of s)) s.report.changed_repos,
            known,
          )
          (ground arith))

  later-Noted :
      (before s s' : LocalStore H)
      → ((k : Bytes) (r : SourceRecord H)
          → lookup k (sources_of s') ≡ some r
          → lookup k (sources_of s) ≡ some r)
      → Knows s s'
      → Noted before s
      → Noted before s'
  later-Noted before s s' earlier knows noted k r repo found ready key =
      elim (noted k r repo (earlier k r found) ready key) [
        | inl old ↦ inl old
        | inr known ↦ inr (knows repo known)
      ]

  lookup-retain :
      (kept noted : Bytes → Bool) (s : LocalStore H) (k : Bytes)
      → lookup k (sources_of (retain kept noted s))
        ≡ (if kept k then lookup k (sources_of s) else none)
  lookup-retain kept noted s k =
      ap (lookup k) (sources-retain kept noted s) ∙ lookup-keep_if kept k (sources_of s)

  retain-earlier :
      (kept noted : Bytes → Bool) (s : LocalStore H) (k : Bytes) (r : SourceRecord H)
      → lookup k (sources_of (retain kept noted s)) ≡ some r
      → lookup k (sources_of s) ≡ some r
  retain-earlier kept noted s k r found =
      let e = sym (lookup-retain kept noted s k) ∙ found in
      elim (Bool-cases (kept k)) [
        | inl t ↦ ground (arith, e, t)
        | inr t ↦ absurd (ground (arith, e, t))
      ]

  retain-Noted :
      (before : LocalStore H) (kept noted : Bytes → Bool) (s : LocalStore H)
      → Noted before s
      → Noted before (retain kept noted s)
  retain-Noted before kept noted s =
      later-Noted before s (retain kept noted s) (retain-earlier kept noted s)
        (retain-Knows kept noted s)

some_injective : {A : Type 0} {a b : A} → some a ≡ some b → a ≡ b
some_injective e = cc

module _ {H : Type 0} ⦃h : Harness H⦄ (before : LocalStore H) where
  Stored-Noted :
      (harness : H) (source fingerprint : Bytes) (s s' : LocalStore H)
      → Stored harness source fingerprint s s'
      → Noted before s
      → Noted before s'
  Stored-Noted harness source fingerprint s s' new noted k r repo found ready key =
      elim (Bool-cases (bytes_eq k (source_key harness source))) [
        | inl e ↦
            let same_key : k ≡ source_key harness source =
              bytes_eq_sound k (source_key harness source) e in
            let at : lookup k (sources_of s') ≡ some new.new =
              ap (lookup k) new.stored
              ∙ ap (λ j. lookup k (map_insert j new.new (sources_of s))) (sym same_key)
              ∙ lookup-map_insert k new.new (sources_of s) in
            let same : new.new ≡ r = some_injective (sym at ∙ found) in
            inr (
              new.noted repo (ap (λ x. is_ready x.state) same ∙ ready)
                (ap (λ x. x.repo_key) same ∙ key))
        | inr e ↦
            elim (noted k r repo
              (sym (
                  ap (lookup k) new.stored
                  ∙ lookup-map_insert_other (source_key harness source) k new.new (sources_of s) e)
                ∙ found)
              ready key) [ inl old ↦ inl old | inr known ↦ inr (new.knows repo known) ]
      ]

module _ {H T : Type 0} ⦃h : Harness H⦄ (w : World H T) (before : LocalStore H) where
  Noted-steps : IsPreserved w (Noted before)
  unfolding sources_of resolve_afresh note_db
  Noted-steps = record {
    by_reload = λ harness source fingerprint updated_at s noted.
        elim (reload-effect w harness source fingerprint updated_at s) [
          | inl (m, failed, same) ↦ subst (Noted before) (sym same) noted
          | inr new ↦
              Stored-Noted before harness source fingerprint s
                (reload w harness source fingerprint updated_at s) new noted
        ];
    by_resolve = λ dir s noted. noted;
    by_retain = retain-Noted before;
    by_complain = λ c s noted. noted;
    by_note = λ site_key fingerprint s noted. noted;
  }

module _ {H T : Type 0} ⦃h : Harness H⦄ (w : World H T) where
  -- After a diff, a ready record was there before, or the report has its repository as changed.
  pub diff-Noted : (s : LocalStore H) → Noted s (diff w s)
  unfolding sources_of
  diff-Noted s =
      diff-preserves w (Noted s) (Noted-steps w s) s (λ k r repo found ready key. inl found)
