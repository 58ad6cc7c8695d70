-- ===== src/Fragment.antt =====
-- src/fragment.rs: the `#range` suffix of a session reference, its parser, its printer and its bounds.
pub mod RoundTrip
pub mod Resolve
use agent_transcript.Prelude.{
  ℕ, zero, suc, ◌+◌, ◌-◌, ◌*◌, ◌/◌, ◌%◌, Bytes, codes, Bool, true, false, not, ◌&&◌, ◌||◌, Option,
  none, some, List, [], ◌∷◌, ◌++◌, ltb, leb, ◌==◌, if◌then◌else◌, all,
}

-- 1-based inclusive bounds; either end may be open.
pub record SpanReq : Type 0 where
  pub start : Option ℕ
  pub end : Option ℕ

-- `usize` has 64 bits.
abbrev pub usize_bound : ℕ
usize_bound = 18446744073709551616

abbrev pub is_ascii_digit : ℕ → Bool
is_ascii_digit c = leb b'0' c && leb c b'9'

-- `split_once`: at the first `mark`.
unfoldable pub split_once : ℕ → Bytes → Option (Bytes × Bytes)
split_once mark [] = none
split_once mark (c ∷ text) = if c == mark then some ([], text) else elim (split_once mark text) [
  | none ↦ none
  | some (before, after) ↦ some (c ∷ before, after)
]

-- The text before and after the last `mark`, which `rfind` locates.
unfoldable pub rsplit_once : ℕ → Bytes → Option (Bytes × Bytes)
rsplit_once mark [] = none
rsplit_once mark (c ∷ text) = elim (rsplit_once mark text) [
  | none ↦ if c == mark then some ([], text) else none
  | some (before, after) ↦ some (c ∷ before, after)
]

-- The number that digits denote, read behind `acc`.
pub number_from : ℕ → Bytes → ℕ
number_from acc [] = acc
number_from acc (c ∷ digits) = number_from (acc * 10 + (c - b'0')) digits

abbrev pub is_empty : Bytes → Bool
is_empty [] = true
is_empty (c ∷ text) = false

-- `digits.parse().ok().map(Some)`: a number that `usize` does not hold is refused.
parse_usize : Bytes → Option (Option ℕ)
parse_usize digits =
    let n = number_from 0 digits in if ltb n usize_bound then some (some n) else none

pub bound : Bytes → Option (Option ℕ)
unfolding parse_usize
bound text =
    if is_empty text then some none else if all is_ascii_digit text then parse_usize text else none

one_number : Option (Option ℕ) → Option SpanReq
one_number none = none
one_number (some none) = none
one_number (some (some n)) = some (record { start = some n; end = some n })

two_bounds : Option (Option ℕ) → Option (Option ℕ) → Option SpanReq
two_bounds none e = none
two_bounds (some s) none = none
two_bounds (some s) (some e) = some (record { start = s; end = e })

pub parse_range : Bytes → Option SpanReq
unfolding one_number two_bounds
parse_range input = elim (split_once b'-' input) [
  | none ↦ one_number (bound input)
  | some (start, end) ↦
      if is_empty start && is_empty end then none else two_bounds (bound start) (bound end)
]

unfoldable pub parse_ref : Bytes → Bytes × Option SpanReq
parse_ref input = elim (rsplit_once b'#' input) [
  | none ↦ (input, none)
  | some (source, suffix) ↦
      if is_empty source
      then (input, none)
      else elim (parse_range suffix) [ none ↦ (input, none) | some req ↦ (source, some req) ]
]

-- The digits of `n` before `rest`; `fuel` bounds their number, and `n` is always enough.
pub digits_onto : ℕ → ℕ → Bytes → Bytes
digits_onto zero n rest = (b'0' + n % 10) ∷ rest
digits_onto (suc fuel) n rest =
    let more = digits_onto fuel (n / 10) ((b'0' + n % 10) ∷ rest) in
    if n / 10 == 0 then (b'0' + n % 10) ∷ rest else more

-- `{}` of a number.
unfoldable pub decimal : ℕ → Bytes
decimal n = digits_onto n n []

bound_text : Option ℕ → Bytes
bound_text none = []
bound_text (some n) = decimal n

is_single : Option ℕ → Option ℕ → Bool
is_single (some s) (some e) = s == e
is_single _ _ = false

-- `Display` of a request, behind its `#`.
pub display_range : SpanReq → Bytes
unfolding bound_text is_single
display_range req =
    if is_single req.start req.end
    then bound_text req.start
    else bound_text req.start ++ b'-' ∷ bound_text req.end

unfoldable pub display : SpanReq → Bytes
display req = b'#' ∷ display_range req

-- `format_span` of the half-open range from `first` to `last`.
unfoldable pub format_span : ℕ × ℕ → Bytes
format_span (first, last) =
    if last - first == 1
    then b'#' ∷ decimal (first + 1)
    else b'#' ∷ decimal (first + 1) ++ b'-' ∷ decimal last

pub data RangeError : Type 0 where
  not_one_based inverted : RangeError
  out_of_bounds : (len : ℕ) → RangeError

pub data Resolved : Type 0 where
  span : (first last : ℕ) → Resolved
  refused : RangeError → Resolved

abbrev pub given : Option ℕ → ℕ → ℕ
given none default = default
given (some n) default = n

-- `SpanReq::resolve`, to a half-open range.
pub resolve : SpanReq → ℕ → Resolved
resolve req len =
    let start = given req.start 1 in
    let end = given req.end len in
    if start == 0 || end == 0
    then refused not_one_based
    else if ltb end start
    then refused inverted
    else if ltb len end
    then refused (out_of_bounds len)
    else span (start - 1) end
