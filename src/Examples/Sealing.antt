-- ===== src/Examples/Sealing.antt =====
-- Primitives that hide nothing but obey the laws: a tag of sixteen zeros stands before the plaintext.
use agent_transcript.Prelude.{
  ℕ, zero, suc, ◌+◌, ◌≤◌, Bytes, codes, ◌≡◌, refl, sym, ap, arith, some, [], ◌∷◌, ◌++◌, length,
  length-append, drop,
}
use agent_transcript.Errors.{ok}
use agent_transcript.Crypto.{Primitives, magic_zstd, encrypt, decrypt}
use agent_transcript.Crypto.RoundTrip.{IsSound, decrypt-encrypt}

abbrev zeros : ℕ → Bytes
zeros zero = []
zeros (suc n) = 0 ∷ zeros n

abbrev transparent : Primitives ℕ
transparent = record {
  fill_bytes = λ n s. (zeros n, s + 1);
  encode_all = λ plain. some plain;
  decode_all = λ packed. some packed;
  seal = λ key nonce aad plain. some (zeros 16 ++ plain);
  unseal = λ key nonce aad ciphertext. some (drop 16 ciphertext);
}

length-zeros : (n : ℕ) → length (zeros n) ≡ n
length-zeros zero = refl
length-zeros (suc n) = ap suc (length-zeros n)

tagged : (plain ciphertext : Bytes) → zeros 16 ++ plain ≡ ciphertext → 16 ≤ length ciphertext
tagged plain ciphertext e = omega (arith, ap length e, length-append {0} (zeros 16) plain)

transparent-IsSound : IsSound ℕ transparent
transparent-IsSound = record {
  fill_bytes-length = λ n s. length-zeros n;
  decode-encode = λ plain packed e. sym e;
  unseal-seal = λ key nonce aad plain ciphertext e. cc;
  has_tag = λ key nonce aad plain ciphertext e. tagged plain ciphertext (cc);
}

sealing :
    (encrypt transparent (codes "key") (codes "v1/catalog") (codes "body") 0).0
    ≡ ok (magic_zstd ++ zeros 24 ++ zeros 16 ++ codes "body")
unfolding encrypt
sealing = refl

decrypt-encrypt_example :
    decrypt transparent
      (codes "key")
      (codes "v1/catalog")
      (magic_zstd ++ zeros 24 ++ zeros 16 ++ codes "body")
    ≡ ok (codes "body")
decrypt-encrypt_example =
    decrypt-encrypt transparent transparent-IsSound (codes "key") (codes "v1/catalog")
      (codes "body") 0 (magic_zstd ++ zeros 24 ++ zeros 16 ++ codes "body") sealing
