-- ===== src/Remote/Attempt.antt =====
-- The steps of a commit, inverted: what is known when an attempt has committed a catalog.
use agent_transcript.Prelude.{◌≡◌, refl, inl, inr, false, arith, Option, none, some, subst}
use agent_transcript.Harness.{Harness}
use agent_transcript.Errors.{Result, ok, >>=-eq-ok, Result-cases, ◌>>=◌, ◌>>◌}
use agent_transcript.Catalog.{Catalog, empty, is_nil, merge_catalogs, validate}
use agent_transcript.Catalog.Prune.{prune_to_current}
use agent_transcript.Bucket.{Fetched, Bucket}
use agent_transcript.Remote.{
  Codec, Prepared, committed, catalog_key, parse_catalog, prepare, write, attempt, commit_loop,
  commit_catalog, condition_of, outcome_of, load_catalog,
}

module _ {S P B E H : Type 0} ⦃h : Harness H⦄ (bucket : Bucket S B E) (codec : Codec S P B H) where
  pub write-committed :
      (p : Prepared P E H) (s : S) (merged : Catalog H)
      → (write bucket codec p s).0 ≡ committed merged
      → (blob : B) × ((codec.encrypt catalog_key p.plain s).0 ≡ ok blob)
        × ((bucket.put catalog_key blob p.condition (codec.encrypt catalog_key p.plain s).1).0
            ≡ ok tt)
        × (p.merged ≡ merged)
  unfolding write outcome_of
  write-committed p s merged e = elim (Result-cases (codec.encrypt catalog_key p.plain s).0) [
    | inr (f, sealed) ↦ absurd (ground arith)
    | inl (blob, sealed) ↦
        elim (Result-cases
          (bucket.put catalog_key blob p.condition (codec.encrypt catalog_key p.plain s).1).0) [
            | inr (f, written) ↦ absurd (ground arith)
            | inl (done, written) ↦ (blob, sealed, written, ground arith)
          ]
  ]

  pub write_state :
      (p : Prepared P E H) (s : S) (blob : B)
      → (codec.encrypt catalog_key p.plain s).0 ≡ ok blob
      → (write bucket codec p s).1
        ≡ (bucket.put catalog_key blob p.condition (codec.encrypt catalog_key p.plain s).1).1
  unfolding write
  write_state p s blob sealed = rw (write, sealed) refl

  pub attempt_state :
      (incoming : Catalog H) (s : S) (found : Option (Fetched B E)) (l : Catalog H × Option E)
      (p : Prepared P E H)
      → (bucket.get catalog_key s).0 ≡ ok found
      → parse_catalog bucket codec found ≡ ok l
      → prepare bucket codec incoming l ≡ ok p
      → (attempt bucket codec incoming s).1 ≡ (write bucket codec p (bucket.get catalog_key s).1).1
  unfolding attempt load_catalog
  attempt_state incoming s found l p got parsed prepared =
      rw (attempt, load_catalog, got, parsed, prepared) refl

  pub attempt-committed :
      (incoming : Catalog H) (s : S) (merged : Catalog H)
      → (attempt bucket codec incoming s).0 ≡ committed merged
      → (found : Option (Fetched B E)) × ((bucket.get catalog_key s).0 ≡ ok found)
        × ((l : Catalog H × Option E) × (parse_catalog bucket codec found ≡ ok l)
            × ((p : Prepared P E H) × (prepare bucket codec incoming l ≡ ok p)
                × ((write bucket codec p (bucket.get catalog_key s).1).0 ≡ committed merged)))
  unfolding attempt load_catalog
  attempt-committed incoming s merged e =
      elim (Result-cases (
        (bucket.get catalog_key s).0
        >>= parse_catalog bucket codec
        >>= prepare bucket codec incoming)) [
          | inr (f, bad) ↦ absurd (ground arith)
          | inl (p, good) ↦
              let (l, loaded, prepared) =
                >>=-eq-ok ((bucket.get catalog_key s).0 >>= parse_catalog bucket codec)
                  (prepare bucket codec incoming) good in
              let (found, fetched, parsed) =
                >>=-eq-ok (bucket.get catalog_key s).0 (parse_catalog bucket codec) loaded in
              (found, fetched, (l, parsed, (p, prepared, ground arith)))
        ]

  pub prepare-eq-ok :
      (incoming base : Catalog H) (etag : Option E) (p : Prepared P E H)
      → prepare bucket codec incoming (base, etag) ≡ ok p
      → (union : Catalog H) × (merge_catalogs base incoming ≡ ok union)
        × (codec.to_vec p.merged ≡ ok p.plain)
        × (p.merged ≡ prune_to_current union)
        × (p.condition ≡ condition_of etag)
  unfolding prepare
  prepare-eq-ok incoming base etag p e = elim (Result-cases (merge_catalogs base incoming)) [
    | inr (f, bad) ↦ absurd (ground arith)
    | inl (union, merging) ↦ elim (Result-cases (codec.to_vec (prune_to_current union))) [
      | inr (f, bad) ↦ absurd (ground arith)
      | inl (plain, written) ↦ (union, merging, ground arith, ground arith, ground arith)
    ]
  ]

  pub validate-empty : validate (empty H) ≡ ok tt
  unfolding validate empty
  validate-empty = refl

  pub commit_catalog_loop :
      (incoming : Catalog H) (s : S)
      → is_nil incoming.sessions ≡ false
      → (commit_loop bucket codec 5 incoming s).0 ≡ (commit_catalog bucket codec incoming s).0
  unfolding commit_catalog
  commit_catalog_loop incoming s e = rw e refl

  pub kept_etag :
      (catalog : Catalog H) (e : Option E) (base : Catalog H) (f : Option E)
      → ◌>>◌ {U = Catalog H × Option E} (validate catalog) (ok (catalog, e)) ≡ ok (base, f)
      → e ≡ f
  kept_etag catalog e base f done = elim (Result-cases (validate catalog)) [
    | inr (g, bad) ↦ absurd (ground arith)
    | inl (_, good) ↦ ground arith
  ]

  pub validated :
      (catalog base : Catalog H) (e f : Option E)
      → ◌>>◌ {U = Catalog H × Option E} (validate catalog) (ok (catalog, e)) ≡ ok (base, f)
      → validate base ≡ ok tt
  validated catalog base e f done = elim (Result-cases (validate catalog)) [
    | inr (g, bad) ↦ absurd (ground arith)
    | inl (_, good) ↦ ground arith
  ]

  pub parse_catalog-valid :
      (found : Option (Fetched B E)) (base : Catalog H) (etag : Option E)
      → parse_catalog bucket codec found ≡ ok (base, etag)
      → validate base ≡ ok tt
  unfolding parse_catalog
  parse_catalog-valid none base etag e =
      subst (λ (c : Catalog H). validate c ≡ ok tt) (cc) validate-empty
  parse_catalog-valid (some f) base etag e =
      let checked : Catalog H → Result (Catalog H × Option E) =
        λ catalog. validate catalog >> ok (catalog, f.etag) in
      let (plain, decrypted, rest) =
        >>=-eq-ok (codec.decrypt catalog_key f.body) (λ p. codec.from_slice p >>= checked) e in
      let (catalog, read, done) = >>=-eq-ok (codec.from_slice plain) checked rest in
      validated catalog base f.etag etag done

  pub parse_catalog-stored :
      (f : Fetched B E) (plain : P) (merged : Catalog H)
      → codec.decrypt catalog_key f.body ≡ ok plain
      → codec.from_slice plain ≡ ok merged
      → validate merged ≡ ok tt
      → parse_catalog bucket codec (some f) ≡ ok (merged, f.etag)
  unfolding parse_catalog
  parse_catalog-stored f plain merged d r v = rw (d, r, v) refl

  pub loaded_etag :
      (found : Option (Fetched B E)) (base : Catalog H) (e : E)
      → parse_catalog bucket codec found ≡ ok (base, some e)
      → (f : Fetched B E) × (found ≡ some f) × (f.etag ≡ some e)
  unfolding parse_catalog
  loaded_etag none base e parsed = absurd (cc)
  loaded_etag (some f) base e parsed =
      let checked : Catalog H → Result (Catalog H × Option E) =
        λ catalog. validate catalog >> ok (catalog, f.etag) in
      let (plain, decrypted, rest) =
        >>=-eq-ok (codec.decrypt catalog_key f.body) (λ p. codec.from_slice p >>= checked) parsed in
      let (catalog, read, done) = >>=-eq-ok (codec.from_slice plain) checked rest in
      (f, refl, kept_etag catalog f.etag base (some e) done)

  -- An object of the same body and entity tag is read as the same catalog.
  pub parse_catalog_same :
      (f g : Fetched B E) (base : Catalog H) (e : E)
      → f.body ≡ g.body
      → f.etag ≡ some e
      → g.etag ≡ some e
      → parse_catalog bucket codec (some f) ≡ ok (base, some e)
      → parse_catalog bucket codec (some g) ≡ ok (base, some e)
  parse_catalog_same f g base e body x y parsed =
      subst (λ (k : Fetched B E). parse_catalog bucket codec (some k) ≡ ok (base, some e)) (cc)
        parsed

  pub load_catalog-valid :
      (s : S) (catalog : Catalog H) (etag : Option E)
      → (load_catalog bucket codec s).0 ≡ ok (catalog, etag)
      → validate catalog ≡ ok tt
  unfolding load_catalog
  load_catalog-valid s catalog etag loaded =
      let (found, _, parsed) =
        >>=-eq-ok (bucket.get catalog_key s).0 (parse_catalog bucket codec) loaded in
      parse_catalog-valid found catalog etag parsed
