-- ===== src/Remote/Commit.antt =====
-- What a successful `commit_catalog` of src/remote.rs has done to the bucket, whatever other machines do meanwhile.
use agent_transcript.Prelude.{
  ℕ, ◌<◌, refl, Bytes, ◌≡◌, ◌⊎◌, inl, inr, false, ap, sym, ◌∙◌, Option, none, some, subst,
}
use agent_transcript.Harness.{Harness}
use agent_transcript.Errors.{ok}
use agent_transcript.Catalog.{Catalog, is_nil, merge_catalogs, validate}
use agent_transcript.Catalog.Valid.{merge_catalogs-valid}
use agent_transcript.Catalog.Prune.{prune_to_current}
use agent_transcript.Catalog.Prune.Kept.{prune_to_current-valid}
use agent_transcript.Bucket.{Fetched, Bucket, Allows, Replaces, IsConditional}
use agent_transcript.Remote.{
  Codec, catalog_key, parse_catalog, load_catalog, commit_catalog, condition_of,
}
use agent_transcript.Remote.Retry.{Retries, Commits, commit_catalog_iff}
use agent_transcript.Remote.Attempt.{
  attempt-committed, attempt_state, write_state, loaded_etag, parse_catalog-stored,
  parse_catalog-valid, parse_catalog_same, prepare-eq-ok, write-committed,
}

-- What is encrypted is decrypted to the same bytes, and what is serialised is read back.
pub record IsCodec (S P B H : Type 0) (codec : Codec S P B H) : Type 0 where
  pub decrypt_encrypt :
      (key : Bytes) (plain : P) (s : S) (blob : B)
      → (codec.encrypt key plain s).0 ≡ ok blob
      → codec.decrypt key blob ≡ ok plain
  pub from_slice-to_vec :
      (c : Catalog H) (plain : P) → codec.to_vec c ≡ ok plain → codec.from_slice plain ≡ ok c

-- What is known of a commit that began in `s`, returned `merged` and ended in `u`: the attempt that
-- committed, the catalog `base` that it read, and the moment at which its write replaced the catalog.
pub record IsCommitted {S P B E H : Type 0} ⦃h : Harness H⦄ (bucket : Bucket S B E)
    (codec : Codec S P B H) (laws : IsConditional S B E bucket) (incoming : Catalog H) (s : S)
    (merged : Catalog H) (u : S) : Type 0 where
  pub retries : ℕ
  pub few : retries < 5
  pub start : S
  pub refusals : Retries bucket codec incoming retries s start
  pub base : Catalog H
  pub etag : Option E
  pub loaded : (load_catalog bucket codec start).0 ≡ ok (base, etag)
  pub union : Catalog H
  pub merging : merge_catalogs base incoming ≡ ok union
  pub pruning : merged ≡ prune_to_current union
  pub plain : P
  pub serialised : codec.to_vec merged ≡ ok plain
  pub blob : B
  pub sealed : (codec.encrypt catalog_key plain (load_catalog bucket codec start).1).0 ≡ ok blob
  -- the write, between the encryption and the end
  pub write :
      Replaces laws.history catalog_key blob
        (codec.encrypt catalog_key plain (load_catalog bucket codec start).1).1
        u
  pub replaced :
      (laws.history.held write.before catalog_key ≡ none)
      ⊎ ((e : Option E) × (parse_catalog bucket codec (laws.history.held write.before catalog_key)
            ≡ ok (base, e)))
  pub stored :
      parse_catalog bucket codec (laws.history.held write.after catalog_key)
      ≡ ok (merged, write.object.etag)

module _ {S P B E H : Type 0} ⦃h : Harness H⦄ (bucket : Bucket S B E) (codec : Codec S P B H)
    (laws : IsConditional S B E bucket) (codec_laws : IsCodec S P B H codec) where
  replaced_base :
      (key_state : S) (found : Option (Fetched B E)) (base : Catalog H) (etag : Option E)
      (before : S)
      → laws.history.held key_state catalog_key ≡ found
      → parse_catalog bucket codec found ≡ ok (base, etag)
      → Allows (condition_of etag) (laws.history.held before catalog_key)
      → (laws.history.held before catalog_key ≡ none)
        ⊎ ((e : Option E) × (parse_catalog bucket codec (laws.history.held before catalog_key)
              ≡ ok (base, e)))
  replaced_base t found base none before shown parsed allowed = inl allowed
  replaced_base t found base (some e) before shown parsed (g, here, tag) =
      let (f, same, tagged) = loaded_etag bucket codec found base e parsed in
      let body = laws.etag_names catalog_key t before f g e (shown ∙ same) here tagged tag in
      inr (
        some e,
        ap (parse_catalog bucket codec) here
            ∙ parse_catalog_same bucket codec f g base e body tagged tag
                (ap (parse_catalog bucket codec) (sym same) ∙ parsed),
      )

  -- What one attempt that committed has done.
  attempted-IsCommitted :
      (incoming : Catalog H) (s : S) (merged : Catalog H) (u : S)
      → validate incoming ≡ ok tt
      → Commits bucket codec incoming 5 s merged u
      → IsCommitted bucket codec laws incoming s merged u
  unfolding load_catalog
  attempted-IsCommitted incoming s merged u valid k =
      let t = k.start in
      let (found, got, (l, parsed, (p, prepared, wrote))) =
        attempt-committed bucket codec incoming t merged k.outcome in
      let (union, merging, written, same, condition) =
        prepare-eq-ok bucket codec incoming l.0 l.1 p prepared in
      let (blob, sealed, put, returned) =
        write-committed bucket codec p (bucket.get catalog_key t).1 merged wrote in
      let (shown, _, _, seen) = laws.get_shows catalog_key t found got in
      let (write, allowed) = laws.put_replaces catalog_key blob p.condition _ put in
      let good : validate merged ≡ ok tt =
        subst (λ (c : Catalog H). validate c ≡ ok tt) (sym (sym returned ∙ same))
          (prune_to_current-valid union (
            merge_catalogs-valid l.0 incoming union merging
              (parse_catalog-valid bucket codec found l.0 l.1 parsed) valid)) in
      let last =
        sym (
          attempt_state bucket codec incoming t found l p got parsed prepared
          ∙ write_state bucket codec p (bucket.get catalog_key t).1 blob sealed)
        ∙ k.final in
      record {
        retries = k.retries;
        few = k.few;
        start = t;
        refusals = k.refusals;
        base = l.0;
        etag = l.1;
        loaded = (rw got refl) ∙ parsed;
        union = union;
        merging = merging;
        pruning = sym returned ∙ same;
        plain = p.plain;
        serialised = ap codec.to_vec (sym returned) ∙ written;
        blob = blob;
        sealed = sealed;
        write = record {
          before = write.before;
          after = write.after;
          begun = write.begun;
          step = write.step;
          ended = subst (laws.history.reaches write.after) last write.ended;
          object = write.object;
          stored = write.stored;
          body = write.body;
        };
        replaced =
            replaced_base shown found l.0 l.1 write.before seen parsed (
              subst (λ c. Allows c (laws.history.held write.before catalog_key)) condition allowed);
        stored =
            ap (parse_catalog bucket codec) write.stored
            ∙ parse_catalog-stored bucket codec write.object p.plain merged
                (ap (codec.decrypt catalog_key) write.body
                  ∙ codec_laws.decrypt_encrypt catalog_key p.plain _ blob sealed)
                (codec_laws.from_slice-to_vec merged p.plain
                  (ap codec.to_vec (sym returned) ∙ written))
                good;
      }

  -- A commit that succeeds loses no update. The attempt that committed has read the catalog `base`; at
  -- a moment of the call of `put` of that attempt, its write replaced a catalog that loads as `base`,
  -- or there was none; directly after that moment the bucket's catalog loads as the pruned merge of
  -- `base` with the incoming one, which is what the call returns. This needs a bucket with conditional
  -- writes, a codec that reads back what it writes, and a valid incoming catalog with a session.
  pub commit_catalog-IsCommitted :
      (incoming : Catalog H) (s : S) (merged : Catalog H) (u : S)
      → is_nil incoming.sessions ≡ false
      → validate incoming ≡ ok tt
      → commit_catalog bucket codec incoming s ≡ (ok merged, u)
      → IsCommitted bucket codec laws incoming s merged u
  commit_catalog-IsCommitted incoming s merged u some_session valid done =
      attempted-IsCommitted incoming s merged u valid
        ((commit_catalog_iff bucket codec incoming s merged u some_session).0 done)
