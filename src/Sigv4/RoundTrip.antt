-- ===== src/Sigv4/RoundTrip.antt =====
-- src/sigv4.rs: percent encoding against the decoding of RFC 3986.
use agent_transcript.Prelude.{
  ℕ, ◌+◌, ◌*◌, ◌-◌, ◌/◌, ◌%◌, ◌<◌, Bytes, ◌≡◌, refl, ap, ◌∙◌, inl, inr, Bool, true, false, [], ◌∷◌,
  leb, ◌==◌, if◌then◌else◌, Bool-cases, All, arith,
}
use agent_transcript.Sigv4.{hex_digit, is_unreserved, passes, encode}

-- The value of an upper-case hexadecimal digit.
abbrev pub hex_value : ℕ → ℕ
hex_value c = if leb c b'9' then c - b'0' else c - 55

-- `%XX` stands for a byte, everything else for itself.
unfoldable pub decode : Bytes → Bytes
decode [] = []
decode (c ∷ []) = c ∷ []
decode (c ∷ d ∷ []) = c ∷ d ∷ []
decode (c ∷ d ∷ e ∷ s) = elim (c == b'%') [
  | true ↦ (hex_value d * 16 + hex_value e) ∷ decode s
  | false ↦ c ∷ decode (d ∷ e ∷ s)
]

hex_value-hex_digit : (n : ℕ) → n < 16 → hex_value (hex_digit n) ≡ n
hex_value-hex_digit n lt = ground arith

-- A byte that passes is no escape.
passes-plain : (keep_slash : Bool) (c : ℕ) → passes keep_slash c ≡ true → (c == b'%') ≡ false
unfolding passes is_unreserved
passes-plain keep_slash c e = ground (arith, e)

decode_plain : (c : ℕ) (s : Bytes) → (c == b'%') ≡ false → decode (c ∷ s) ≡ c ∷ decode s
unfolding decode
decode_plain c [] e = refl
decode_plain c (d ∷ []) e = refl
decode_plain c (d ∷ f ∷ s) e = rw (decode, e) refl

decode_escape :
    (c : ℕ) (s : Bytes)
    → c < 256
    → decode (b'%' ∷ hex_digit (c / 16) ∷ hex_digit (c % 16) ∷ s) ≡ c ∷ decode s
unfolding decode
decode_escape c s lt =
    ap (λ x. x ∷ decode s)
      (rw
        (
          hex_value-hex_digit (c / 16) (omega (arith, lt)),
          hex_value-hex_digit (c % 16) (omega arith),
        )
        (omega arith))

-- Decoding what was encoded gives the bytes back, so that two keys of a bucket never share an address.
pub decode-encode :
    (input : Bytes) (keep_slash : Bool)
    → All (λ c. c < 256) input
    → decode (encode input keep_slash) ≡ input
unfolding encode decode
decode-encode [] keep_slash bytes = refl
decode-encode (c ∷ input) keep_slash (lt, bytes) = elim (Bool-cases (passes keep_slash c)) [
  | inl e ↦
      rw (encode, e)
        (decode_plain c (encode input keep_slash) (passes-plain keep_slash c e)
          ∙ ap (λ s. c ∷ s) (decode-encode input keep_slash bytes))
  | inr e ↦
      rw (encode, e)
        (decode_escape c (encode input keep_slash) lt
          ∙ ap (λ s. c ∷ s) (decode-encode input keep_slash bytes))
]
