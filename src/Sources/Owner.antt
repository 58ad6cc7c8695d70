-- ===== src/Sources/Owner.antt =====
-- src/sources.rs: which site loads a source, and the sources that a database names.
use agent_transcript.Prelude.{
  ◌≤◌, Bytes, starts_with, strip_prefix, ◌≡◌, refl, sym, ap, ◌∙◌, subst, ◌⊎◌, inl, inr, Bool, true,
  false, ◌&&◌, none, some, List, [], ◌∷◌, ◌++◌, Memᴰ, map, length, ltb, keep_if, keep_if_passes,
  if◌then◌else◌, Bool-cases, All, All-map, All-zip, All-keep_if, All-Memᴰ, arith,
}
use agent_transcript.Harness.{Harness}
use agent_transcript.Errors.{Result, ok}
use agent_transcript.Sources.{
  Site, Load, db, Discovery, broken, no_store, source_prefix, owns, load_from, load, longest,
  discover, discoveries,
}

module _ {H T : Type 0} ⦃h : Harness H⦄ where
  -- The site is of the harness, and owns the source.
  abbrev pub serves : H → Bytes → Site H T → Bool
  serves harness source s = h.beq s.harness harness && owns s source

  abbrev IsAtMost : Site H T → Site H T → Type 0
  IsAtMost s t = length t.path ≤ length s.path

  longest-some :
      (P : Site H T → Type 0) (b : Site H T) (sites : List (Site H T))
      → P b
      → All P sites
      → (s : Site H T) × (longest (some b) sites ≡ some s)
        × P s
        × IsAtMost s b
        × All (IsAtMost s) sites
  unfolding longest
  longest-some P b [] p ps = (b, refl, p, omega arith, tt)
  longest-some P b (t ∷ sites) p (q, ps) = elim (Bool-cases (ltb (length t.path) (length b.path))) [
    | inl lt ↦
        let (s, e, r, le, more) = longest-some P b sites p ps in
        (s, rw (longest, lt) e, r, le, (ground (arith, lt, le), more))
    | inr ge ↦
        let (s, e, r, le, more) = longest-some P t sites q ps in
        (s, rw (longest, ge) e, r, ground (arith, ge, le), (le, more))
  ]

  -- What is said of the members that pass a test holds of every member that passes it.
  All-of_keep_if :
      (p : Site H T → Bool) (P : Site H T → Type 0) (sites : List (Site H T))
      → All P (keep_if p sites)
      → All (λ t. p t ≡ true → P t) sites
  All-of_keep_if p P [] h = tt
  All-of_keep_if p P (t ∷ sites) h = elim (Bool-cases (p t)) [
    | inl e ↦
        let (q, hs) = subst (λ b. All P (if b then t ∷ keep_if p sites else keep_if p sites)) e h in
        ((λ _. q), All-of_keep_if p P sites hs)
    | inr e ↦
        let hs = subst (λ b. All P (if b then t ∷ keep_if p sites else keep_if p sites)) e h in
        ((λ e'. absurd (cc)), All-of_keep_if p P sites hs)
  ]

  longest_cases :
      (P : Site H T → Type 0) (found : List (Site H T))
      → All P found
      → ((found ≡ []) × (longest none found ≡ none))
        ⊎ ((s : Site H T) × (longest none found ≡ some s) × P s × All (IsAtMost s) found)
  unfolding longest
  longest_cases P [] ps = inl (refl, refl)
  longest_cases P (t ∷ found) (p, ps) =
      let (s, e, q, le, more) = longest-some P t found p ps in inr (s, e, q, (le, more))

  -- A source is loaded by one of the sites, which is of its harness and owns it, and which has the
  -- longest path among those that do; it is reported broken if there is none.
  pub load_owner :
      (sites : List (Site H T)) (harness : H) (source : Bytes)
      → ((owner : Site H T) × (load sites harness source ≡ load_from owner source)
          × Memᴰ owner sites
          × (serves harness source owner ≡ true)
          × All (λ t. serves harness source t ≡ true → IsAtMost owner t) sites)
        ⊎ ((load sites harness source ≡ broken (no_store (h.to_string harness) source))
            × All (λ t. serves harness source t ≡ false) sites)
  unfolding load
  load_owner sites harness source =
      let found = keep_if (serves harness source) sites in
      elim (longest_cases (λ t. (serves harness source t ≡ true) × Memᴰ t sites) found
        (All-zip (λ t. serves harness source t ≡ true) (λ t. Memᴰ t sites) found
          (keep_if_passes (serves harness source) sites)
          (All-keep_if (λ t. Memᴰ t sites) (serves harness source) sites (All-Memᴰ sites)))) [
            | inl (e, nothing) ↦ inr (
              rw (load, nothing) refl,
              All-map
                  (λ t no. elim (Bool-cases (serves harness source t)) [
                    | inl is_served ↦ absurd (no is_served)
                    | inr not_served ↦ not_served
                  ])
                  sites
                  (All-of_keep_if (serves harness source) (λ t. ⊥) sites
                    (subst (All (λ t. ⊥)) (sym e) tt)),
            )
            | inr (s, e, (served, among), most) ↦ inl (
              s,
              rw (load, e) refl,
              among,
              served,
              All-of_keep_if (serves harness source) (IsAtMost s) sites most,
            )
          ]

strip_prefix-append : (p s : Bytes) → strip_prefix p (p ++ s) ≡ some s
unfolding strip_prefix
strip_prefix-append [] s = refl
strip_prefix-append (c ∷ p) s = ground (arith, strip_prefix-append p s)

starts_with-append : (p s : Bytes) → starts_with (p ++ s) p ≡ true
unfolding starts_with
starts_with-append [] s = refl
starts_with-append (c ∷ p) s = ground (arith, starts_with-append p s)

module _ {H T : Type 0} ⦃h : Harness H⦄ (site : Site H T) (ld : Bytes → Load T) where
  source_loads :
      (found : Result (List (Bytes × Bytes))) (reference : Bytes)
      → site.loader ≡ db found ld
      → (load_from site (source_prefix site ++ reference) ≡ ld reference)
        × (owns site (source_prefix site ++ reference) ≡ true)
  unfolding load_from owns
  source_loads found reference e = (
    simp (load_from, e, strip_prefix-append (source_prefix site) reference),
    simp (owns, e, starts_with-append (source_prefix site) reference),
  )

  discoveries_load :
      (found : Result (List (Bytes × Bytes))) (pairs : List (Bytes × Bytes))
      → site.loader ≡ db found ld
      → (map (λ d. load_from site d.source) (discoveries (source_prefix site) pairs)
          ≡ map (λ p. ld p.0) pairs)
        × All (λ d. owns site d.source ≡ true) (discoveries (source_prefix site) pairs)
  unfolding discoveries
  discoveries_load found [] e = (refl, tt)
  discoveries_load found ((reference, fingerprint) ∷ pairs) e =
      let (same, owned) = discoveries_load found pairs e in
      let (loads, owns_it) = source_loads found reference e in
      (
        ap (λ l. l ∷ map (λ d. load_from site d.source) (discoveries (source_prefix site) pairs))
              loads
            ∙ ap (λ rest. ld reference ∷ rest) same,
        (owns_it, owned),
      )

  -- The sources that a database site names are its own, and each loads what the database holds under
  -- its reference.
  pub discover-load :
      (pairs : List (Bytes × Bytes))
      → site.loader ≡ db (ok pairs) ld
      → (found : List Discovery) × (discover site ≡ ok found)
        × (map (λ d. load_from site d.source) found ≡ map (λ p. ld p.0) pairs)
        × All (λ d. owns site d.source ≡ true) found
  unfolding discover
  discover-load pairs e =
      let (same, owned) = discoveries_load (ok pairs) pairs e in
      (discoveries (source_prefix site) pairs, simp (discover, e), same, owned)
