-- ===== src/LocalState/Diff/Again.antt =====
-- src/local_state.rs: what a scan leaves current, and a scan or a resolution that is repeated.
use agent_transcript.Prelude.{
  Bytes, bytes_eq, bytes_eq_refl, strip_prefix, ◌≡◌, ◌≢◌, refl, sym, ap, ◌∙◌, subst, inl, inr, Bool,
  true, false, ==_iff, List, [], ◌∷◌, ◌++◌, lookup, lookup-map_insert, lookup-map_insert_other,
  lookup-keep_if, keep_if, keep_if_twice, length, set_has, Bool-cases, Option-cases, All, All-map,
  All-zip, keep_if_passes, arith,
}
use agent_transcript.Harness.{Harness}
use agent_transcript.Sources.{Site, Failure, load, transient}
use agent_transcript.LocalState.{LocalStore, World, SourceRecord, sources_of}
use agent_transcript.LocalState.Reload.{source_key, reconsider, is_current}
use agent_transcript.LocalState.Reload.Effect.{reload-effect}
use agent_transcript.LocalState.Diff.{
  Found, retain, is_kept, seen_keys, drop_unseen, reconsider_all, scan_found, scan_files, files_of,
}
use agent_transcript.LocalState.Diff.Valid.{sources-retain}

module _ {H T : Type 0} ⦃h : Harness H⦄ (w : World H T) (harness : H) where
  -- No load of the source fails for the moment.
  abbrev pub IsSteady : Found → Type 0
  IsSteady f = (m : Failure) → load w.sites harness f.source ≢ transient m

  abbrev pub Differs : Found → Found → Type 0
  Differs f g = bytes_eq (source_key harness f.source) (source_key harness g.source) ≡ false

  -- No source is listed twice.
  abbrev pub AreDistinct : List Found → Type 0
  AreDistinct [] = Unit
  AreDistinct (f ∷ found) = All (Differs f) found × AreDistinct found

  -- The record of the source has the fingerprint that was found.
  abbrev pub IsCurrent : LocalStore H → Found → Type 0
  IsCurrent s f =
      is_current (lookup (source_key harness f.source) (sources_of s)) f.fingerprint ≡ true

  reconsider-IsCurrent :
      (f : Found) (s : LocalStore H)
      → IsSteady f
      → IsCurrent (reconsider w harness f.source f.fingerprint f.updated_at s) f
  unfolding reconsider is_current
  reconsider-IsCurrent f s steady =
      elim (Bool-cases
        (is_current (lookup (source_key harness f.source) (sources_of s)) f.fingerprint)) [
          | inl e ↦ rw (reconsider, e) e
          | inr e ↦
              rw (reconsider, e)
                (elim (reload-effect w harness f.source f.fingerprint f.updated_at s) [
                  | inl (m, failed, same) ↦ absurd (steady m failed)
                  | inr new ↦
                      rw
                        (
                          new.stored,
                          lookup-map_insert (source_key harness f.source) new.new (sources_of s),
                          new.fingerprint_eq,
                          bytes_eq_refl f.fingerprint,
                        )
                        refl
                ])
        ]

  reconsider_other :
      (f : Found) (key : Bytes) (s : LocalStore H)
      → bytes_eq key (source_key harness f.source) ≡ false
      → lookup key (sources_of (reconsider w harness f.source f.fingerprint f.updated_at s))
        ≡ lookup key (sources_of s)
  unfolding reconsider sources_of
  reconsider_other f key s d =
      elim (Bool-cases
        (is_current (lookup (source_key harness f.source) (sources_of s)) f.fingerprint)) [
          | inl e ↦ rw (reconsider, e) refl
          | inr e ↦
              rw (reconsider, e)
                (elim (reload-effect w harness f.source f.fingerprint f.updated_at s) [
                  | inl (m, failed, same) ↦ ap (λ t. lookup key (sources_of t)) same
                  | inr new ↦
                      ap (lookup key) new.stored
                      ∙ lookup-map_insert_other (source_key harness f.source) key new.new
                          (sources_of s) d
                ])
        ]

  reconsider_all_other :
      (key : Bytes) (found : List Found) (s : LocalStore H)
      → All (λ g. bytes_eq key (source_key harness g.source) ≡ false) found
      → lookup key (sources_of (reconsider_all w harness found s)) ≡ lookup key (sources_of s)
  unfolding reconsider_all
  reconsider_all_other key [] s d = refl
  reconsider_all_other key (f ∷ found) s (d, ds) =
      reconsider_all_other key found (reconsider w harness f.source f.fingerprint f.updated_at s) ds
      ∙ reconsider_other f key s d

  reconsider_all-IsCurrent :
      (found : List Found) (s : LocalStore H)
      → All IsSteady found
      → AreDistinct found
      → All (IsCurrent (reconsider_all w harness found s)) found
  unfolding reconsider_all
  reconsider_all-IsCurrent [] s steady distinct = tt
  reconsider_all-IsCurrent (f ∷ found) s (steady, more) (d, distinct) =
      let s' = reconsider w harness f.source f.fingerprint f.updated_at s in
      (
        ap (λ o. is_current o f.fingerprint)
              (reconsider_all_other (source_key harness f.source) found s' d)
            ∙ reconsider-IsCurrent f s steady,
        reconsider_all-IsCurrent found s' more distinct,
      )

  reconsider_all_steady :
      (found : List Found) (s : LocalStore H)
      → All (IsCurrent s) found
      → reconsider_all w harness found s ≡ s
  unfolding reconsider_all reconsider
  reconsider_all_steady [] s current = refl
  reconsider_all_steady (f ∷ found) s (e, current) =
      rw (reconsider, e) (reconsider_all_steady found s current)

module _ {H : Type 0} (kept noted : Bytes → Bool) where
  -- A `retain` that removes nothing changes nothing.
  retain_steady :
      (s : LocalStore H)
      → keep_if (λ e. kept e.0) (sources_of s) ≡ sources_of s
      → retain kept noted s ≡ s
  unfolding retain sources_of
  retain_steady s e =
      rw (retain, e, (==_iff (length s.state.sources) (length s.state.sources)).1 refl) refl

  retain_twice : (s : LocalStore H) → retain kept noted (retain kept noted s) ≡ retain kept noted s
  retain_twice s =
      let once = sources-retain kept noted s in
      retain_steady (retain kept noted s) (
        ap (keep_if (λ e. kept e.0)) once ∙ keep_if_twice (λ e. kept e.0) (sources_of s) ∙ sym once)

  retain-keeps :
      (s : LocalStore H) (key : Bytes)
      → kept key ≡ true
      → lookup key (sources_of (retain kept noted s)) ≡ lookup key (sources_of s)
  retain-keeps s key e =
      ap (lookup key) (sources-retain kept noted s)
      ∙ lookup-keep_if kept key (sources_of s)
      ∙ rw e refl

is_kept_seen :
    (prefix root : Bytes) (seen : List Bytes) (key : Bytes)
    → set_has key seen ≡ true
    → is_kept prefix root seen key ≡ true
unfolding is_kept
is_kept_seen prefix root seen key e = elim (Option-cases (strip_prefix prefix key)) [
  | inl none_eq ↦ rw (is_kept, none_eq) refl
  | inr (rest, some_eq) ↦ rw (is_kept, some_eq, e) (ground arith)
]

module _ {H : Type 0} ⦃h : Harness H⦄ (harness : H) where
  seen_all :
      (found : List Found)
      → All (λ f. set_has (source_key harness f.source) (seen_keys harness found) ≡ true) found
  unfolding seen_keys
  seen_all [] = tt
  seen_all (f ∷ found) = (
    rw (bytes_eq_refl (source_key harness f.source)) refl,
    All-map (λ g e. rw e (ground arith)) found (seen_all found),
  )

module _ {H T : Type 0} ⦃h : Harness H⦄ (w : World H T) (site : Site H T) where
  scan_found-IsCurrent :
      (found : List Found) (s : LocalStore H)
      → All (IsSteady w site.harness) found
      → AreDistinct w site.harness found
      → All (IsCurrent w site.harness (scan_found w site found s)) found
  unfolding scan_found drop_unseen
  scan_found-IsCurrent found s steady distinct =
      let kept =
        is_kept (h.as_str site.harness ++ 10 ∷ []) site.path (seen_keys site.harness found) in
      All-map
        (λ f both.
          ap (λ o. is_current o f.fingerprint)
            (retain-keeps kept (λ k. true) (reconsider_all w site.harness found s)
              (source_key site.harness f.source)
              (is_kept_seen (h.as_str site.harness ++ 10 ∷ []) site.path
                (seen_keys site.harness found) (source_key site.harness f.source) both.1))
          ∙ both.0)
        found
        (All-zip (IsCurrent w site.harness (reconsider_all w site.harness found s))
          (λ f. set_has (source_key site.harness f.source) (seen_keys site.harness found) ≡ true)
          found (reconsider_all-IsCurrent w site.harness found s steady distinct)
          (seen_all site.harness found))

  -- The record is of a listed source, or not under the site's root.
  abbrev pub IsListed : List Found → Bytes × SourceRecord H → Type 0
  IsListed found e =
      is_kept (h.as_str site.harness ++ 10 ∷ []) site.path (seen_keys site.harness found) e.0 ≡ true

  scan_found_twice :
      (found : List Found) (s : LocalStore H)
      → All (IsSteady w site.harness) found
      → AreDistinct w site.harness found
      → scan_found w site found (scan_found w site found s) ≡ scan_found w site found s
  unfolding scan_found drop_unseen
  scan_found_twice found s steady distinct =
      ap (drop_unseen site.harness site.path (seen_keys site.harness found)) (
        reconsider_all_steady w site.harness found (scan_found w site found s)
          (scan_found-IsCurrent found s steady distinct))
      ∙ retain_twice
          (is_kept (h.as_str site.harness ++ 10 ∷ []) site.path (seen_keys site.harness found))
          (λ k. true) (reconsider_all w site.harness found s)

  -- If the directory walk lists no source twice and no load of a listed source fails for the moment,
  -- then after a scan each listed source has a record with the fingerprint of the listing, and the
  -- records of the harness under the site's root are of listed sources.
  pub scan_files-IsCurrent :
      (s : LocalStore H)
      → All (IsSteady w site.harness) (files_of w site)
      → AreDistinct w site.harness (files_of w site)
      → All (IsCurrent w site.harness (scan_files w site s)) (files_of w site)
        × All (IsListed (files_of w site)) (sources_of (scan_files w site s))
  unfolding scan_files scan_found drop_unseen
  scan_files-IsCurrent s steady distinct = (
    scan_found-IsCurrent (files_of w site) s steady distinct,
    let found = files_of w site in
        let listed =
          is_kept (h.as_str site.harness ++ 10 ∷ []) site.path (seen_keys site.harness found) in
        let looped = reconsider_all w site.harness found s in
        subst (All (IsListed found)) (sym (sources-retain listed (λ k. true) looped))
          (keep_if_passes (λ e. listed e.0) (sources_of looped)),
  )

  -- If the directory walk lists no source twice and no load of a listed source fails for the moment,
  -- then a second scan, of the same listing, leaves the store as the first one left it, its report
  -- and its count of loaded sources included.
  pub scan_files_twice :
      (s : LocalStore H)
      → All (IsSteady w site.harness) (files_of w site)
      → AreDistinct w site.harness (files_of w site)
      → scan_files w site (scan_files w site s) ≡ scan_files w site s
  unfolding scan_files
  scan_files_twice s steady distinct = scan_found_twice (files_of w site) s steady distinct
