-- ===== src/Store/Xml.antt =====
-- src/store.rs: `parse_listing` and `unescape`. The tokens are those of the xmlparser package.
use agent_transcript.Prelude.{
  ℕ, zero, suc, ◌+◌, ◌-◌, ◌*◌, ◌/◌, ◌%◌, ◌^◌, Bytes, codes, bytes_eq, Bool, true, false, not, ◌&&◌,
  ◌||◌, Option, none, some, List, [], ◌∷◌, ◌++◌, all, leb, ltb, ◌==◌, if◌then◌else◌, trim,
  strip_prefix, length,
}
use agent_transcript.Errors.{Result, ok, err, msg, non_numeric_size, invalid_xml, ◌>>=◌}
use agent_transcript.Fragment.{is_empty, split_once, number_from, is_ascii_digit}
use agent_transcript.Bucket.{Listed}

pub data Token : Type 0 where
  element_start : (name : Bytes) → Token
  text cdata : (part : Bytes) → Token
  element_close : (name : Bytes) → Token
  another : Token
  invalid : (reason : Bytes) → Token

pub record Parser : Type 0 where
  pub tokens : Bytes → List Token
  -- `DateTime::parse_from_rfc3339`
  pub parse_date : Bytes → Option ℕ

pub record Page : Type 0 where
  pub objects : List Listed
  pub truncated : Bool
  pub next_token : Option Bytes

-- The variables of the loop over the tokens.
pub record Reading : Type 0 where
  pub page : Page
  pub in_contents : Bool
  pub current : Listed
  pub text : Bytes

abbrev no_object : Listed
no_object = record { key = []; size = 0; last_modified = none }

abbrev unsigned : Bytes → Bytes
unsigned [] = []
unsigned (c ∷ digits) = if c == b'+' then digits else c ∷ digits

-- `parse` of a number of `bits` bits in base ten: an optional `+`, then digits.
unfoldable pub parse_number : (bound : ℕ) → Bytes → Option ℕ
parse_number bound s =
    let digits = unsigned s in
    let n = number_from 0 digits in
    if is_empty digits || not (all is_ascii_digit digits)
    then none
    else if ltb n bound
    then some n
    else none

abbrev hex_digit_value : ℕ → Option ℕ
hex_digit_value c =
    if leb b'0' c && leb c b'9'
    then some (c - b'0')
    else if leb b'a' c && leb c b'f'
    then some (c - 87)
    else if leb b'A' c && leb c b'F'
    then some (c - 55)
    else none

hex_from : ℕ → Bytes → Option ℕ
hex_from acc [] = some acc
hex_from acc (c ∷ digits) = elim (hex_digit_value c) [
  | none ↦ none
  | some v ↦ hex_from (acc * 16 + v) digits
]

-- `u32::from_str_radix(digits, 16)`
unfoldable pub parse_hex : Bytes → Option ℕ
unfolding hex_from
parse_hex s =
    let digits = unsigned s in
    if is_empty digits
    then none
    else elim (hex_from 0 digits) [ none ↦ none | some n ↦ if ltb n (2 ^ 32) then some n else none ]

-- `char::from_u32`, and the UTF-8 bytes of the character.
unfoldable pub utf8 : ℕ → Option Bytes
utf8 c =
    if ltb c 128
    then some (c ∷ [])
    else if ltb c 2048
    then some ((192 + c / 64) ∷ (128 + c % 64) ∷ [])
    else if (leb 55296 c && leb c 57343) || ltb 1114111 c
    then none
    else if ltb c 65536
    then some ((224 + c / 4096) ∷ (128 + c / 64 % 64) ∷ (128 + c % 64) ∷ [])
    else some
        ((240 + c / 262144) ∷ (128 + c / 4096 % 64) ∷ (128 + c / 64 % 64) ∷ (128 + c % 64) ∷ [])

abbrev or_else : Option ℕ → Option ℕ → Option ℕ
or_else (some n) other = some n
or_else none other = other

abbrev and_then {ℓ κ} : {A : Type ℓ} {B : Type κ} → Option A → (A → Option B) → Option B
and_then none f = none
and_then (some a) f = f a

-- The character that an entity stands for.
unfoldable pub decoded : Bytes → Option Bytes
unfolding parse_hex parse_number utf8
decoded entity =
    if bytes_eq entity (codes "amp")
    then some (b'&' ∷ [])
    else if bytes_eq entity (codes "lt")
    then some (b'<' ∷ [])
    else if bytes_eq entity (codes "gt")
    then some (b'>' ∷ [])
    else if bytes_eq entity (codes "quot")
    then some (34 ∷ [])
    else if bytes_eq entity (codes "apos")
    then some (39 ∷ [])
    else and_then
        (or_else (and_then (strip_prefix (codes "#x") entity) parse_hex)
          (and_then (strip_prefix (codes "#") entity) (parse_number (2 ^ 32))))
        utf8

-- The loop of `unescape`, on fuel; each round shortens the text.
unfoldable pub unescape_loop : ℕ → Bytes → Bytes
unfolding decoded
unescape_loop zero rest = rest
unescape_loop (suc fuel) rest = elim (split_once b'&' rest) [
  | none ↦ rest
  | some (before, tail) ↦ elim (split_once b';' tail) [
    | none ↦ before ++ b'&' ∷ tail
    | some (entity, after) ↦
        let done = unescape_loop fuel after in
        before ++ (elim (decoded entity) [ none ↦ b'&' ∷ entity ++ b';' ∷ [] | some c ↦ c ]) ++ done
  ]
]

unfoldable pub unescape : Bytes → Bytes
unfolding unescape_loop
unescape s = unescape_loop (length s) s

-- A closing tag inside `Contents`.
unfoldable pub close_inside : Parser → (prefix name : Bytes) → Reading → Result Reading
unfolding unescape parse_number
close_inside parser prefix name r =
    let value = trim r.text in
    if bytes_eq name (codes "Key")
    then ok (record r { current = record r.current { key = unescape value } })
    else if bytes_eq name (codes "Size")
    then elim (parse_number (2 ^ 64) value) [
      | none ↦ err (msg (non_numeric_size prefix))
      | some size ↦ ok (record r { current = record r.current { size = size } })
    ]
    else if bytes_eq name (codes "LastModified")
    then ok (record r { current = record r.current { last_modified = parser.parse_date value } })
    else if bytes_eq name (codes "Contents")
    then ok (record r {
      page = record r.page { objects = r.page.objects ++ r.current ∷ [] };
      in_contents = false;
      current = record r.current { key = [] };
    })
    else ok r

-- A closing tag outside.
unfoldable pub close_outside : (name : Bytes) → Reading → Reading
unfolding unescape
close_outside name r =
    if bytes_eq name (codes "IsTruncated")
    then record r { page = record r.page { truncated = bytes_eq (trim r.text) (codes "true") } }
    else if bytes_eq name (codes "NextContinuationToken")
    then record r { page = record r.page { next_token = some (unescape (trim r.text)) } }
    else r

abbrev cleared : Reading → Reading
cleared r = record r { text = [] }

unfoldable pub read_token : Parser → Bytes → Token → Reading → Result Reading
unfolding close_inside close_outside
read_token parser prefix (element_start name) r =
    if bytes_eq name (codes "Contents")
    then ok (record r { in_contents = true; current = no_object; text = [] })
    else ok (cleared r)
read_token parser prefix (text part) r = ok (record r { text = r.text ++ part })
read_token parser prefix (cdata part) r = ok (record r { text = r.text ++ part })
read_token parser prefix (element_close name) r =
    if r.in_contents
    then (do r' ← close_inside parser prefix name r; ok (cleared r'))
    else ok (cleared (close_outside name r))
read_token parser prefix another r = ok r
read_token parser prefix (invalid reason) r = err (msg (invalid_xml prefix reason))

unfoldable pub read_tokens : Parser → Bytes → List Token → Reading → Result Reading
unfolding read_token
read_tokens parser prefix [] r = ok r
read_tokens parser prefix (t ∷ tokens) r = do
  r' ← read_token parser prefix t r
  read_tokens parser prefix tokens r'

unfoldable pub parse_listing : Parser → (prefix xml : Bytes) → Result Page
unfolding read_tokens
parse_listing parser prefix xml = do
  r ← read_tokens parser prefix (parser.tokens xml) (record {
    page = record { objects = []; truncated = false; next_token = none };
    in_contents = false;
    current = no_object;
    text = [];
  })
  ok r.page
