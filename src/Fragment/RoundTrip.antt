-- ===== src/Fragment/RoundTrip.antt =====
-- The parser and the printer of src/fragment.rs together.
use agent_transcript.Prelude.{
  ℕ, zero, suc, ◌+◌, ◌/◌, ◌%◌, ◌≤◌, ◌<◌, Bytes, ◌≡◌, refl, ap, ◌∙◌, arith, Bool, true, false, not,
  Option, none, some, [], ◌∷◌, ◌++◌, ltb, ◌==◌, all, all-append, Bool-cases, inl, inr,
}
use agent_transcript.Fragment.{
  SpanReq, usize_bound, is_ascii_digit, split_once, rsplit_once, number_from, is_empty, parse_usize,
  bound, one_number, two_bounds, parse_range, parse_ref, digits_onto, decimal, bound_text,
  is_single, display_range, display,
}

digits_onto-number :
    (fuel n : ℕ) (rest : Bytes)
    → n ≤ fuel
    → number_from 0 (digits_onto fuel n rest) ≡ number_from n rest
unfolding number_from digits_onto
digits_onto-number zero n rest h = ap (λ m. number_from m rest) (omega arith)
digits_onto-number (suc fuel) n rest h = elim (Bool-cases (n / 10 == 0)) [
  | inl small ↦ rw small (ap (λ m. number_from m rest) (ground arith))
  | inr large ↦ rw large (
      digits_onto-number fuel (n / 10) ((b'0' + n % 10) ∷ rest) (ground arith)
      ∙ ap (λ m. number_from m rest) (ground arith))
]

digits_onto-all :
    (fuel n : ℕ) (rest : Bytes)
    → all is_ascii_digit rest ≡ true
    → all is_ascii_digit (digits_onto fuel n rest) ≡ true
unfolding digits_onto
digits_onto-all zero n rest h = ground arith
digits_onto-all (suc fuel) n rest h =
    ground (arith, digits_onto-all fuel (n / 10) ((b'0' + n % 10) ∷ rest))

digits_onto-is_empty : (fuel n : ℕ) (rest : Bytes) → is_empty (digits_onto fuel n rest) ≡ false
unfolding digits_onto
digits_onto-is_empty zero n rest = refl
digits_onto-is_empty (suc fuel) n rest =
    ground (arith, digits_onto-is_empty fuel (n / 10) ((b'0' + n % 10) ∷ rest))

number_from-decimal : (n : ℕ) → number_from 0 (decimal n) ≡ n
unfolding decimal number_from
number_from-decimal n = digits_onto-number n n [] (omega arith)

all-decimal : (n : ℕ) → all is_ascii_digit (decimal n) ≡ true
unfolding decimal
all-decimal n = digits_onto-all n n [] refl

is_empty-decimal : (n : ℕ) → is_empty (decimal n) ≡ false
unfolding decimal
is_empty-decimal n = digits_onto-is_empty n n []

bound-decimal : (n : ℕ) → n < usize_bound → bound (decimal n) ≡ some (some n)
unfolding bound parse_usize
bound-decimal n h =
    let small : ltb n usize_bound ≡ true = ground arith in
    rw (is_empty-decimal n, all-decimal n, number_from-decimal n, small) refl

-- Digits hold no other mark.
split_once_digits :
    (mark : ℕ) (digits rest : Bytes)
    → is_ascii_digit mark ≡ false
    → all is_ascii_digit digits ≡ true
    → split_once mark (digits ++ mark ∷ rest) ≡ some (digits, rest)
unfolding split_once
split_once_digits mark [] rest m d = ground arith
split_once_digits mark (c ∷ digits) rest m d = ground (arith, split_once_digits mark digits rest)

split_once-none :
    (mark : ℕ) (digits : Bytes)
    → is_ascii_digit mark ≡ false
    → all is_ascii_digit digits ≡ true
    → split_once mark digits ≡ none
unfolding split_once
split_once-none mark [] m d = refl
split_once-none mark (c ∷ digits) m d = ground (arith, split_once-none mark digits)

abbrev lacks : ℕ → Bytes → Bool
lacks mark = all (λ c. not (c == mark))

rsplit_once-none : (mark : ℕ) (text : Bytes) → lacks mark text ≡ true → rsplit_once mark text ≡ none
unfolding rsplit_once
rsplit_once-none mark [] h = refl
rsplit_once-none mark (c ∷ text) h = ground (arith, rsplit_once-none mark text)

rsplit_once_last :
    (mark : ℕ) (source text : Bytes)
    → lacks mark text ≡ true
    → rsplit_once mark (source ++ mark ∷ text) ≡ some (source, text)
unfolding rsplit_once
rsplit_once_last mark [] text h = ground (arith, rsplit_once-none mark text)
rsplit_once_last mark (c ∷ source) text h = ground (arith, rsplit_once_last mark source text)

digits-lacks :
    (mark : ℕ) (digits : Bytes)
    → is_ascii_digit mark ≡ false
    → all is_ascii_digit digits ≡ true
    → lacks mark digits ≡ true
digits-lacks mark [] m d = refl
digits-lacks mark (c ∷ digits) m d = ground (arith, digits-lacks mark digits)

abbrev Fits : Option ℕ → Type 0
Fits none = Unit
Fits (some n) = n < usize_bound

-- A request that has a bound, and whose bounds `usize` holds.
pub record IsPrintable (req : SpanReq) : Type 0 where
  pub start_fits : Fits req.start
  pub end_fits : Fits req.end
  pub has_bound : (req.start ≡ none) → (req.end ≡ none) → ⊥

bound-empty : bound [] ≡ some none
unfolding bound
bound-empty = refl

single :
    (s e : ℕ)
    → s ≡ e
    → ◌≡◌ {A = Option SpanReq}
        (some (record { start = some s; end = some s }))
        (some (record { start = some s; end = some e }))
single s e same = ap (λ n. some (record { start = some s; end = some n })) same

display_single :
    (s e : ℕ)
    → (s == e) ≡ true
    → display_range (record { start = some s; end = some e }) ≡ decimal s
unfolding display_range is_single bound_text
display_single s e one = rw one refl

parse_single :
    (s : ℕ)
    → s < usize_bound
    → parse_range (decimal s) ≡ some (record { start = some s; end = some s })
unfolding one_number parse_range
parse_single s f =
    rw (parse_range, split_once-none b'-' (decimal s) refl (all-decimal s), bound-decimal s f) refl

parse_range_bounds :
    (s e : Option ℕ)
    → Fits s
    → Fits e
    → ((s ≡ none) → (e ≡ none) → ⊥)
    → parse_range (display_range (record { start = s; end = e }))
      ≡ some (record { start = s; end = e })
unfolding parse_range display_range bound_text is_single one_number two_bounds
parse_range_bounds none none f g h = absurd (h refl refl)
parse_range_bounds none (some e) f g h =
    rw
      (
        parse_range,
        split_once_digits b'-' [] (decimal e) refl refl,
        is_empty-decimal e,
        bound-empty,
        bound-decimal e g,
      )
      refl
parse_range_bounds (some s) none f g h =
    rw
      (
        parse_range,
        split_once_digits b'-' (decimal s) [] refl (all-decimal s),
        is_empty-decimal s,
        bound-decimal s f,
        bound-empty,
      )
      refl
parse_range_bounds (some s) (some e) f g h = elim (Bool-cases (s == e)) [
  | inl one ↦ ap parse_range (display_single s e one) ∙ parse_single s f ∙ single s e (ground arith)
  | inr two ↦
      rw
        (
          parse_range,
          two,
          split_once_digits b'-' (decimal s) (decimal e) refl (all-decimal s),
          is_empty-decimal s,
          bound-decimal s f,
          bound-decimal e g,
        )
        refl
]

display_range-lacks :
    (s e : Option ℕ) → lacks b'#' (display_range (record { start = s; end = e })) ≡ true
unfolding display_range bound_text
display_range-lacks none none = refl
display_range-lacks none (some e) =
    ground (arith, digits-lacks b'#' (decimal e) refl (all-decimal e))
display_range-lacks (some s) none = ground (
  arith,
  digits-lacks b'#' (decimal s) refl (all-decimal s),
  all-append (λ c. not (c == b'#')) (decimal s) (b'-' ∷ []),
)
display_range-lacks (some s) (some e) = ground (
  arith,
  digits-lacks b'#' (decimal s) refl (all-decimal s),
  digits-lacks b'#' (decimal e) refl (all-decimal e),
  all-append (λ c. not (c == b'#')) (decimal s) (b'-' ∷ decimal e),
)

-- Reading a reference with a printed request gives the source and the request back: for a source
-- that is not empty, and a request that has a bound and whose bounds fit into 64 bits.
pub parse_ref-display :
    (source : Bytes) (req : SpanReq)
    → is_empty source ≡ false
    → IsPrintable req
    → parse_ref (source ++ display req) ≡ (source, some req)
unfolding parse_ref display
parse_ref-display source req one p =
    rw
      (
        parse_ref,
        rsplit_once_last b'#' source (display_range req) (display_range-lacks req.start req.end),
        one,
        parse_range_bounds req.start req.end p.start_fits p.end_fits p.has_bound,
      )
      refl
