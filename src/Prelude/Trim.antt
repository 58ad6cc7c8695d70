-- ===== src/Prelude/Trim.antt =====
-- `str::trim` and its kin, on the UTF-8 bytes of a text.
use Prim.Native.Nat.{ℕ, ◌+◌, ◌-◌}
use mathlib.Core.Bool.{Bool, true, false, ◌&&◌, ◌||◌}
use mathlib.Core.List.{List, [], ◌∷◌}
use mathlib.Core.Option.{Option, none, some}
use agent_transcript.Prelude.Tests.{if◌then◌else◌, ◌==◌, leb}
use agent_transcript.Prelude.Text.{Bytes, starts_with}
use agent_transcript.Prelude.Lists.{length, take}

-- The characters of `char::is_whitespace` that one byte encodes.
unfoldable pub is_white : ℕ → Bool
is_white x = (leb 9 x && leb x 13) || x == 32

-- U+0085 and U+00A0.
unfoldable pub is_white2 : ℕ → ℕ → Bool
is_white2 x y = x == 194 && (y == 133 || y == 160)

-- U+1680, U+2000 to U+200A, U+2028, U+2029, U+202F, U+205F and U+3000.
unfoldable pub is_white3 : ℕ → ℕ → ℕ → Bool
is_white3 x y z =
    (x == 225 && y == 154 && z == 128)
    || (x == 226 && y == 128 && (leb 128 z && leb z 138 || z == 168 || z == 169 || z == 175))
    || (x == 226 && y == 129 && z == 159)
    || (x == 227 && y == 128 && z == 128)

unfoldable pub trim_start : Bytes → Bytes
unfolding is_white is_white2 is_white3
trim_start [] = []
trim_start (x ∷ []) = if is_white x then [] else x ∷ []
trim_start (x ∷ y ∷ []) = elim (is_white x) [
  | true ↦ trim_start (y ∷ [])
  | false ↦ if is_white2 x y then [] else x ∷ y ∷ []
]
trim_start (x ∷ y ∷ z ∷ s) = elim (is_white x) [
  | true ↦ trim_start (y ∷ z ∷ s)
  | false ↦ elim (is_white2 x y) [
    | true ↦ trim_start (z ∷ s)
    | false ↦ elim (is_white3 x y z) [ true ↦ trim_start s | false ↦ x ∷ y ∷ z ∷ s ]
  ]
]

abbrev pub reverse_onto : Bytes → Bytes → Bytes
reverse_onto [] acc = acc
reverse_onto (x ∷ xs) acc = reverse_onto xs (x ∷ acc)

abbrev pub reverse : Bytes → Bytes
reverse s = reverse_onto s []

-- `trim_start` of a reversed text, which removes white space from the end of the text.
unfoldable pub trim_reversed : Bytes → Bytes
unfolding is_white is_white2 is_white3
trim_reversed [] = []
trim_reversed (x ∷ []) = if is_white x then [] else x ∷ []
trim_reversed (y ∷ x ∷ []) = elim (is_white y) [
  | true ↦ trim_reversed (x ∷ [])
  | false ↦ if is_white2 x y then [] else y ∷ x ∷ []
]
trim_reversed (z ∷ y ∷ x ∷ s) = elim (is_white z) [
  | true ↦ trim_reversed (y ∷ x ∷ s)
  | false ↦ elim (is_white2 y z) [
    | true ↦ trim_reversed (x ∷ s)
    | false ↦ elim (is_white3 x y z) [ true ↦ trim_reversed s | false ↦ z ∷ y ∷ x ∷ s ]
  ]
]

-- `trim`
unfoldable pub trim : Bytes → Bytes
unfolding trim_start trim_reversed
trim s = reverse (trim_reversed (reverse (trim_start s)))

-- `trim_start_matches` of one byte.
unfoldable pub drop_leading : ℕ → Bytes → Bytes
drop_leading c [] = []
drop_leading c (x ∷ xs) = elim (x == c) [ true ↦ drop_leading c xs | false ↦ x ∷ xs ]

-- `trim_matches` of one byte.
unfoldable pub trim_matches : ℕ → Bytes → Bytes
unfolding drop_leading
trim_matches c s = reverse (drop_leading c (reverse (drop_leading c s)))

-- `strip_prefix`
unfoldable pub strip_prefix : Bytes → Bytes → Option Bytes
strip_prefix [] s = some s
strip_prefix (p ∷ ps) [] = none
strip_prefix (p ∷ ps) (x ∷ xs) = if x == p then strip_prefix ps xs else none

-- `ends_with`
unfoldable pub ends_with : Bytes → Bytes → Bool
unfolding starts_with
ends_with s suffix = starts_with (reverse s) (reverse suffix)

-- `strip_suffix`
unfoldable pub strip_suffix : Bytes → Bytes → Option Bytes
unfolding ends_with
strip_suffix suffix s =
    if ends_with s suffix then some (take (length s - length suffix) s) else none

-- `contains` of a text: `pattern` occurs somewhere in it.
unfoldable pub contains_text : Bytes → Bytes → Bool
unfolding starts_with
contains_text [] pattern = starts_with [] pattern
contains_text (x ∷ xs) pattern = starts_with (x ∷ xs) pattern || contains_text xs pattern

-- `to_ascii_lowercase`
unfoldable pub to_ascii_lowercase : Bytes → Bytes
to_ascii_lowercase [] = []
to_ascii_lowercase (x ∷ xs) = (if leb 65 x && leb x 90 then x + 32 else x) ∷ to_ascii_lowercase xs

-- `split` at one byte: the parts, of which there is always one.
unfoldable pub split : ℕ → Bytes → List Bytes
split c [] = [] ∷ []
split c (x ∷ xs) = elim (split c xs) [
  | [] ↦ (x ∷ []) ∷ []
  | part ∷ parts ↦ if x == c then [] ∷ part ∷ parts else (x ∷ part) ∷ parts
]
