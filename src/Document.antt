-- ===== src/Document.antt =====
-- src/document.rs: the document that archives a transcript. Serialisation, SHA-256 and the transcripts of
-- the txcript package are parameters.
use agent_transcript.Prelude.{
  ℕ, Bytes, not, Option, none, some, List, [], ◌∷◌, length, ◌==◌, if◌then◌else◌,
}
use agent_transcript.Errors.{Result, ok, err, schema, ◌>>=◌}
use agent_transcript.Freshness.{Freshness, Info}
use agent_transcript.Catalog.{Revision, object_key}

-- `SCHEMA`
abbrev pub document_schema : ℕ
document_schema = 1

-- What the code reads of a transcript: its metadata, and the times of its messages in order.
pub record Transcript : Type 0 where
  pub id : Bytes
  pub info : Info
  pub body : List ℕ

-- `meta` and `messages` are those of the transcript.
pub record ArchiveDocument (H T : Type 0) : Type 0 where
  pub schema : ℕ
  pub harness : H
  pub repo_key : Bytes
  pub transcript : T

-- The packages: what a transcript says, `serde_json::to_vec` of a document, and SHA-256 in hexadecimal.
pub record Content (H T : Type 0) : Type 0 where
  pub transcript : T → Transcript
  pub to_vec : ArchiveDocument H T → Result Bytes
  pub sha256_hex : Bytes → Bytes

unfoldable pub last_of : List ℕ → Option ℕ
last_of [] = none
last_of (x ∷ []) = some x
last_of (x ∷ y ∷ ys) = last_of (y ∷ ys)

-- `Freshness::of_body`
unfoldable pub of_body : List ℕ → Option ℕ → Bytes → Freshness
unfolding last_of
of_body body updated_at content_hash = record {
  updated_at = updated_at;
  last_message_at = last_of body;
  message_count = length body;
  content_hash = content_hash;
}

module _ {H T : Type 0} where
  -- `ArchiveDocument::new`
  unfoldable pub new_document : H → Bytes → T → ArchiveDocument H T
  new_document harness repo_key t = record {
    schema = document_schema;
    harness = harness;
    repo_key = repo_key;
    transcript = t;
  }

  unfoldable pub content_hash : Content H T → ArchiveDocument H T → Result Bytes
  content_hash c document = do bytes ← c.to_vec document; ok (c.sha256_hex bytes)

  unfoldable pub into_transcript : ArchiveDocument H T → Result T
  into_transcript document =
      if not (document.schema == document_schema)
      then err (schema document.schema)
      else ok document.transcript

  unfoldable pub revision :
      Content H T → ArchiveDocument H T → Bytes → Option ℕ → ℕ → Result Revision
  unfolding of_body
  revision c document hash updated_at size = do
    key ← object_key hash
    ok (record {
      object_key = key;
      freshness = of_body (c.transcript document.transcript).body updated_at hash;
      info = (c.transcript document.transcript).info;
      size = size;
    })

  -- `encrypt_document`, over the `encrypt` of src/crypto.rs under the key of the archive.
  unfoldable pub encrypt_document :
      {S B : Type 0}
      → Content H T
      → (Bytes → Bytes → S → Result B × S)
      → Bytes
      → ArchiveDocument H T
      → S
      → Result B × S
  encrypt_document c encrypt object document s = elim (c.to_vec document) [
    | err e ↦ (err e, s)
    | ok bytes ↦ encrypt object bytes s
  ]
