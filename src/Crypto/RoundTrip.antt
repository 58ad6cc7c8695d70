-- ===== src/Crypto/RoundTrip.antt =====
-- `encrypt` and `decrypt` of src/crypto.rs together.
use agent_transcript.Prelude.{
  ℕ, zero, suc, ◌≤◌, Bytes, bytes_eq, ◌≡◌, refl, ap, subst, arith, some, [], ◌∷◌, ◌++◌, length,
  length-append, take, drop, inl, inr, Option-cases,
}
use agent_transcript.Errors.{Result, ok}
use agent_transcript.Catalog.{Catalog}
use agent_transcript.Remote.Commit.{IsCodec}
use agent_transcript.Crypto.{
  Primitives, nonce_len, frame, encrypt, decrypt, is_compressed, decode_body, archive_codec,
}

-- The documented behaviour of the packages: as many random bytes as asked for, decompression and
-- decryption undo compression and encryption, and a ciphertext has a tag of 16 bytes.
pub record IsSound (S : Type 0) (p : Primitives S) : Type 0 where
  pub fill_bytes-length : (n : ℕ) (s : S) → length (p.fill_bytes n s).0 ≡ n
  pub decode-encode :
      (plain packed : Bytes) → p.encode_all plain ≡ some packed → p.decode_all packed ≡ some plain
  pub unseal-seal :
      (key nonce aad plain ciphertext : Bytes)
      → p.seal key nonce aad plain ≡ some ciphertext
      → p.unseal key nonce aad ciphertext ≡ some plain
  pub has_tag :
      (key nonce aad plain ciphertext : Bytes)
      → p.seal key nonce aad plain ≡ some ciphertext
      → 16 ≤ length ciphertext

take-append : (n : ℕ) (xs ys : Bytes) → length xs ≡ n → take n (xs ++ ys) ≡ xs
take-append zero [] ys e = refl
take-append zero (x ∷ xs) ys e = absurd (omega arith)
take-append (suc n) [] ys e = absurd (omega arith)
take-append (suc n) (x ∷ xs) ys e = ap (λ l. x ∷ l) (take-append n xs ys (omega arith))

drop-append : (n : ℕ) (xs ys : Bytes) → length xs ≡ n → drop n (xs ++ ys) ≡ ys
drop-append zero [] ys e = refl
drop-append zero (x ∷ xs) ys e = absurd (omega arith)
drop-append (suc n) [] ys e = absurd (omega arith)
drop-append (suc n) (x ∷ xs) ys e = drop-append n xs ys (omega arith)

module _ {S : Type 0} (p : Primitives S) (sound : IsSound S p) where
  decrypt-frame :
      (key object_key plain packed nonce ciphertext : Bytes)
      → length nonce ≡ nonce_len
      → p.encode_all plain ≡ some packed
      → p.seal key nonce object_key packed ≡ some ciphertext
      → decrypt p key object_key (frame p nonce ciphertext) ≡ ok plain
  unfolding decrypt frame is_compressed decode_body bytes_eq
  decrypt-frame key object_key plain packed nonce ciphertext n e c =
      rw
        (
          take-append nonce_len nonce ciphertext n,
          drop-append nonce_len nonce ciphertext n,
          sound.unseal-seal key nonce object_key packed ciphertext c,
          sound.decode-encode plain packed e,
        )
        (ground (
          arith,
          length-append {0} nonce ciphertext,
          sound.has_tag key nonce object_key packed ciphertext c,
        ))

  -- What `encrypt` produces, `decrypt` turns back into the plaintext, under the same key and for the same
  -- object; this needs sound primitives.
  pub decrypt-encrypt :
      (key object_key plain : Bytes) (s : S) (blob : Bytes)
      → (encrypt p key object_key plain s).0 ≡ ok blob
      → decrypt p key object_key blob ≡ ok plain
  unfolding encrypt
  decrypt-encrypt key object_key plain s blob done = elim (Option-cases (p.encode_all plain)) [
    | inl fails ↦ absurd (ground arith)
    | inr (packed, e) ↦
        let nonce = (p.fill_bytes nonce_len s).0 in
        elim (Option-cases (p.seal key nonce object_key packed)) [
          | inl fails ↦ absurd (ground arith)
          | inr (ciphertext, c) ↦
              let same : frame p nonce ciphertext ≡ blob = ground arith in
              subst (λ b. decrypt p key object_key b ≡ ok plain) same
                (decrypt-frame key object_key plain packed nonce ciphertext
                  (sound.fill_bytes-length nonce_len s) e c)
        ]
  ]

  -- The codec that a commit uses reads back what it writes, for every key and for a serialisation of
  -- catalogs that is read back.
  pub archive_codec-IsCodec :
      {H : Type 0} (key : Bytes) (to_vec : Catalog H → Result Bytes)
      (from_slice : Bytes → Result (Catalog H))
      → ((c : Catalog H) (plain : Bytes) → to_vec c ≡ ok plain → from_slice plain ≡ ok c)
      → IsCodec S Bytes Bytes H (archive_codec p key to_vec from_slice)
  unfolding archive_codec
  archive_codec-IsCodec key to_vec from_slice json = record {
    decrypt_encrypt =
        λ object_key plain s blob done. decrypt-encrypt key object_key plain s blob done;
    from_slice-to_vec = json;
  }
