-- ===== src/Sessions/Transcripts.antt =====
-- src/sessions.rs: `transcript`, the body that a merged view points at; src/remote.rs:
-- `document_from_plaintext`. `serde_json::from_slice` of a document is a parameter.
use agent_transcript.Prelude.{
  ℕ, Bytes, not, none, some, List, ◌==◌, if◌then◌else◌, ◌≡◌, arith, ◌∙◌, ap, sym, inl, inr,
  Bool-cases, Option-cases,
}
use agent_transcript.Harness.{Harness}
use agent_transcript.Errors.{
  Error, Result, ok, err, msg, schema, ambiguous, Failure, reading, local_without_source,
  remote_without_object, ◌>>=◌, >>=-eq-ok, ok_injective,
}
use agent_transcript.Freshness.{Pick, local, remote}
use agent_transcript.Bucket.{Bucket}
use agent_transcript.Plaintext.{Files, load_plaintext}
use agent_transcript.Plaintext.Integrity.{load_plaintext-hash}
use agent_transcript.Document.{ArchiveDocument, document_schema, into_transcript}
use agent_transcript.Sources.{Site, read, transient, broken, load}
use agent_transcript.Merge.{MergedView}

module _ {H T : Type 0} where
  check_ok :
      (found document : ArchiveDocument H T)
      → (if not (found.schema == document_schema) then err (schema found.schema) else ok found)
        ≡ ok document
      → (found.schema ≡ document_schema) × (found ≡ document)
  check_ok found document e = elim (Bool-cases (found.schema == document_schema)) [
    | inl same ↦ (ground arith, ok_injective (ground arith))
    | inr other ↦ absurd (ground arith)
  ]

module _ {H T : Type 0} (from_slice : Bytes → Result (ArchiveDocument H T)) where
  unfoldable pub document_from_plaintext : Bytes → Result (ArchiveDocument H T)
  document_from_plaintext bytes = do
    document ← from_slice bytes
    if not (document.schema == document_schema) then err (schema document.schema) else ok document

  document_from_plaintext-ok :
      (plain : Bytes) (document : ArchiveDocument H T)
      → document_from_plaintext plain ≡ ok document
      → (from_slice plain ≡ ok document) × (document.schema ≡ document_schema)
  unfolding document_from_plaintext
  document_from_plaintext-ok plain document e =
      let (found, decoded, passed) = >>=-eq-ok (from_slice plain) _ e in
      let (supported, same) = check_ok found document passed in
      (decoded ∙ ap ok same, ap (λ (d : ArchiveDocument H T). d.schema) (sym same) ∙ supported)

module _ {H T : Type 0} where
  into_transcript-ok :
      (document : ArchiveDocument H T) (t : T)
      → into_transcript document ≡ ok t
      → document.transcript ≡ t
  unfolding into_transcript
  into_transcript-ok document t e = ground arith

module _ {H : Type 0} ⦃h : Harness H⦄ where
  unfoldable pub load_error : MergedView H → Failure → Error
  load_error v failure = msg (reading (h.to_string v.harness) v.session_id failure)

module _ {H T : Type 0} ⦃h : Harness H⦄ where
  -- The `Local` arm.
  unfoldable pub local_transcript : List (Site H T) → MergedView H → Result T
  unfolding load_error
  local_transcript sites v = elim v.local_source [
    | none ↦ err (msg (local_without_source (h.to_string v.harness) v.session_id))
    | some source ↦ elim (load sites v.harness source) [
      | read t ↦ ok t
      | transient m ↦ err (load_error v m)
      | broken m ↦ err (load_error v m)
    ]
  ]

module _ {H T : Type 0} (from_slice : Bytes → Result (ArchiveDocument H T)) where
  -- The `Remote` arm, behind the load of the plaintext.
  unfoldable pub parsed : Bytes → Result T
  unfolding document_from_plaintext into_transcript
  parsed plain = document_from_plaintext from_slice plain >>= into_transcript

  parsed-ok :
      (plain : Bytes) (t : T)
      → parsed plain ≡ ok t
      → (document : ArchiveDocument H T) × (from_slice plain ≡ ok document)
        × (document.schema ≡ document_schema)
        × (document.transcript ≡ t)
  unfolding parsed
  parsed-ok plain t e =
      let (document, checked, taken) =
        >>=-eq-ok (document_from_plaintext from_slice plain) into_transcript e in
      let (decoded, supported) = document_from_plaintext-ok from_slice plain document checked in
      (document, decoded, supported, into_transcript-ok document t taken)

module _ {H T : Type 0} (sha256_hex : Bytes → Bytes)
    (from_slice : Bytes → Result (ArchiveDocument H T)) where
  -- The archived body that a transcript comes from.
  pub record ArchivedBody (content_hash : Bytes) (t : T) : Type 0 where
    pub plain : Bytes
    pub hash : sha256_hex plain ≡ content_hash
    pub document : ArchiveDocument H T
    pub decoded : from_slice plain ≡ ok document
    pub supported : document.schema ≡ document_schema
    pub content : document.transcript ≡ t

module _ {S B E H T : Type 0} ⦃h : Harness H⦄ (files : Files S) (bucket : Bucket S B E)
    (decrypt : Bytes → B → Result Bytes) (sha256_hex : Bytes → Bytes)
    (from_slice : Bytes → Result (ArchiveDocument H T)) (sites : List (Site H T)) where
  unfoldable pub transcript : ℕ → MergedView H → S → Result T × S
  unfolding local_transcript parsed load_plaintext
  transcript now v s = elim v.pick [
    | Pick.ambiguous ↦ (err (ambiguous (h.to_string v.harness) v.session_id), s)
    | local ↦ (local_transcript sites v, s)
    | remote ↦ elim v.object_key [
      | none ↦ (err (msg (remote_without_object (h.to_string v.harness) v.session_id)), s)
      | some key ↦
          let (plain, s') =
            load_plaintext files bucket decrypt sha256_hex now key v.content_hash s in
          (plain >>= parsed from_slice, s')
    ]
  ]

  -- Whatever the cache and the bucket hold, the transcript of a session that is read from the archive
  -- is that of a document whose plaintext has the content hash of the view, and whose schema is
  -- the one that this program writes.
  pub transcript-ArchivedBody :
      (now : ℕ) (v : MergedView H) (s : S) (t : T)
      → v.pick ≡ remote
      → (transcript now v s).0 ≡ ok t
      → ArchivedBody sha256_hex from_slice v.content_hash t
  unfolding transcript
  transcript-ArchivedBody now v s t picked e = elim (Option-cases v.object_key) [
    | inl missing ↦ absurd (ground arith)
    | inr (key, there) ↦
        let run = load_plaintext files bucket decrypt sha256_hex now key v.content_hash s in
        let chain : (run.0 >>= parsed from_slice) ≡ ok t = ground arith in
        let (plain, loaded, passed) = >>=-eq-ok run.0 (parsed from_slice) chain in
        let (document, decoded, supported, content) = parsed-ok from_slice plain t passed in
        record {
          plain = plain;
          hash =
              load_plaintext-hash files bucket decrypt sha256_hex now key v.content_hash s plain
                loaded;
          document = document;
          decoded = decoded;
          supported = supported;
          content = content;
        }
  ]
