-- ===== src/Crypto.antt =====
-- src/crypto.rs: the frame of an encrypted object, which is a magic word, a nonce and a ciphertext.
pub mod RoundTrip
use agent_transcript.Prelude.{
  ℕ, zero, suc, ◌+◌, Bytes, codes, bytes_eq, Bool, true, false, Option, none, some, List, [], ◌∷◌,
  ◌++◌, length, take, drop, ltb, if◌then◌else◌,
}
use agent_transcript.Errors.{
  Error, crypto, format, msg, Result, ok, err, compressing, decompressing, ◌>>=◌,
}
use agent_transcript.Catalog.{Catalog}
use agent_transcript.Remote.{Codec}

abbrev pub magic_plain : Bytes
magic_plain = codes "ATX1"

abbrev pub magic_zstd : Bytes
magic_zstd = codes "ATZ1"

abbrev pub nonce_len : ℕ
nonce_len = 24

-- What the packages zstd, chacha20poly1305 and rand provide: `none` is their error. A key is an array of
-- 32 bytes, which the cipher always takes.
pub record Primitives (S : Type 0) : Type 0 where
  pub fill_bytes : ℕ → S → Bytes × S
  pub encode_all : Bytes → Option Bytes
  pub decode_all : Bytes → Option Bytes
  pub seal : (key nonce aad plain : Bytes) → Option Bytes
  pub unseal : (key nonce aad ciphertext : Bytes) → Option Bytes

abbrev or_error {ℓ} : {A : Type ℓ} → Error → Option A → Result A
or_error e none = err e
or_error e (some a) = ok a

module _ {S : Type 0} (p : Primitives S) where
  pub frame : (nonce : Bytes) → Bytes → Bytes
  frame nonce ciphertext = magic_zstd ++ nonce ++ ciphertext

  unfoldable pub encrypt : (key object_key plain : Bytes) → S → Result Bytes × S
  unfolding frame
  encrypt key object_key plain s = elim (p.encode_all plain) [
    | none ↦ (err (msg (compressing object_key)), s)
    | some compressed ↦
        let (nonce, s') = p.fill_bytes nonce_len s in
        elim (p.seal key nonce object_key compressed) [
          | none ↦ (err (crypto object_key), s')
          | some ciphertext ↦ (ok (frame nonce ciphertext), s')
        ]
  ]

  -- The match on the magic word: whether the body is compressed.
  pub is_compressed : (object_key magic : Bytes) → Result Bool
  is_compressed object_key magic =
      if bytes_eq magic magic_zstd
      then ok true
      else if bytes_eq magic magic_plain
      then ok false
      else err (format object_key)

  pub decode_body : Bytes → Bool → Bytes → Result Bytes
  decode_body object_key true decoded =
      or_error (msg (decompressing object_key)) (p.decode_all decoded)
  decode_body object_key false decoded = ok decoded

  pub decrypt : (key object_key blob : Bytes) → Result Bytes
  unfolding is_compressed decode_body
  decrypt key object_key blob =
      let nonce = take nonce_len (drop (length magic_plain) blob) in
      let ciphertext = drop (length magic_plain + nonce_len) blob in
      if ltb (length blob) (length magic_plain + nonce_len + 16)
      then err (format object_key)
      else (do
        compressed ← is_compressed object_key (take (length magic_plain) blob)
        decoded ← or_error (crypto object_key) (p.unseal key nonce object_key ciphertext)
        decode_body object_key compressed decoded)

  -- The codec of the archive under a key, for a serialisation of catalogs.
  pub archive_codec :
      {H : Type 0}
      → Bytes
      → (Catalog H → Result Bytes)
      → (Bytes → Result (Catalog H))
      → Codec S Bytes Bytes H
  unfolding encrypt decrypt
  archive_codec key to_vec from_slice = record {
    encrypt = encrypt key;
    decrypt = decrypt key;
    to_vec = to_vec;
    from_slice = from_slice;
  }
