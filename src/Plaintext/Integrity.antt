-- ===== src/Plaintext/Integrity.antt =====
-- What `load_plaintext` of src/remote.rs returns.
use agent_transcript.Prelude.{
  ℕ, Bytes, bytes_eq, bytes_eq_iff, ◌≡◌, subst, arith, Option, none, some, Bool-cases, inl, inr,
  Option-cases,
}
use agent_transcript.Errors.{Result, ok, Result-cases, >>=-eq-ok, ◌>>=◌}
use agent_transcript.Bucket.{Fetched, Bucket}
use agent_transcript.Plaintext.{Files, check_object, fetch_plaintext, load_plaintext}

module _ {S B E : Type 0} (files : Files S) (bucket : Bucket S B E)
    (decrypt : Bytes → B → Result Bytes) (sha256_hex : Bytes → Bytes) where
  check_object-hash :
      (object_key content_hash : Bytes) (found : Option (Fetched B E)) (plain : Bytes)
      → check_object files bucket decrypt sha256_hex object_key content_hash found ≡ ok plain
      → sha256_hex plain ≡ content_hash
  unfolding check_object
  check_object-hash object_key content_hash none plain e = absurd (cc)
  check_object-hash object_key content_hash (some fetched) plain e =
      elim (Result-cases (decrypt object_key fetched.body)) [
        | inr (f, bad) ↦ absurd (ground arith)
        | inl (p, good) ↦ elim (Bool-cases (bytes_eq (sha256_hex p) content_hash)) [
          | inl same ↦
              let returned : p ≡ plain = ground arith in
              subst (λ x. sha256_hex x ≡ content_hash) returned
                ((bytes_eq_iff (sha256_hex p) content_hash).0 same)
          | inr other ↦ absurd (ground arith)
        ]
      ]

  fetch_plaintext-hash :
      (now : ℕ) (object_key content_hash : Bytes) (s : S) (plain : Bytes)
      → (fetch_plaintext files bucket decrypt sha256_hex now object_key content_hash s).0 ≡ ok plain
      → sha256_hex plain ≡ content_hash
  unfolding fetch_plaintext
  fetch_plaintext-hash now object_key content_hash s plain e =
      let check = check_object files bucket decrypt sha256_hex object_key content_hash in
      let (found, s') = bucket.get object_key s in
      elim (Result-cases (found >>= check)) [
        | inr (f, bad) ↦ absurd (ground arith)
        | inl (p, good) ↦
            elim (Result-cases (files.atomic_write (files.file_of content_hash) p s').0) [
              | inr (f, bad) ↦ absurd (ground arith)
              | inl (done, written) ↦
                  let (o, _, checked) = >>=-eq-ok found check good in
                  let returned : p ≡ plain = ground arith in
                  subst (λ x. sha256_hex x ≡ content_hash) returned
                    (check_object-hash object_key content_hash o p checked)
            ]
      ]

  -- Whatever the cache and the bucket hold, a plaintext that `load_plaintext` returns has the content
  -- hash that the catalog names.
  pub load_plaintext-hash :
      (now : ℕ) (object_key content_hash : Bytes) (s : S) (plain : Bytes)
      → (load_plaintext files bucket decrypt sha256_hex now object_key content_hash s).0 ≡ ok plain
      → sha256_hex plain ≡ content_hash
  unfolding load_plaintext
  load_plaintext-hash now object_key content_hash s plain e =
      let cached = files.file_of content_hash in
      let (body, s') = files.read cached s in
      elim (Option-cases body) [
        | inl missing ↦ fetch_plaintext-hash now object_key content_hash s' plain (ground arith)
        | inr (bytes, there) ↦ elim (Bool-cases (bytes_eq (sha256_hex bytes) content_hash)) [
          | inl same ↦
              let returned : bytes ≡ plain = ground arith in
              subst (λ x. sha256_hex x ≡ content_hash) returned
                ((bytes_eq_iff (sha256_hex bytes) content_hash).0 same)
          | inr other ↦ elim (Result-cases (files.remove cached s').0) [
            | inr (f, bad) ↦ absurd (ground arith)
            | inl (done, removed) ↦
                fetch_plaintext-hash now object_key content_hash (files.remove cached s').1 plain
                  (ground arith)
          ]
        ]
      ]
