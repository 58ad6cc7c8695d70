-- ===== src/Sigv4.antt =====
-- src/sigv4.rs: the signature of a request. SHA-256, HMAC and the printing of a date are parameters.
pub mod RoundTrip
use agent_transcript.Prelude.{
  ℕ, ◌+◌, ◌/◌, ◌%◌, Bytes, codes, bytes_le, Bool, true, false, ◌&&◌, ◌||◌, List, [], ◌∷◌, ◌++◌, leb,
  ltb, ◌==◌, if◌then◌else◌, sort_by, trim,
}

-- `HEX[n]`
abbrev pub hex_digit : ℕ → ℕ
hex_digit n = if ltb n 10 then b'0' + n else 55 + n

unfoldable pub is_unreserved : ℕ → Bool
is_unreserved c =
    (leb b'A' c && leb c b'Z')
    || (leb b'a' c && leb c b'z')
    || (leb b'0' c && leb c b'9')
    || c == b'-'
    || c == b'_'
    || c == b'.'
    || c == b'~'

unfoldable pub passes : Bool → ℕ → Bool
unfolding is_unreserved
passes keep_slash c = is_unreserved c || (c == b'/' && keep_slash)

unfoldable pub encode : Bytes → (keep_slash : Bool) → Bytes
unfolding passes
encode [] keep_slash = []
encode (c ∷ input) keep_slash =
    let rest = encode input keep_slash in
    if passes keep_slash c then c ∷ rest else b'%' ∷ hex_digit (c / 16) ∷ hex_digit (c % 16) ∷ rest

-- `join`
abbrev pub join_with : Bytes → List Bytes → Bytes
join_with mark [] = []
join_with mark (part ∷ []) = part
join_with mark (part ∷ next ∷ parts) = part ++ mark ++ join_with mark (next ∷ parts)

abbrev encode_pairs : List (Bytes × Bytes) → List Bytes
encode_pairs [] = []
encode_pairs ((name, value) ∷ pairs) =
    (encode name false ++ codes "=" ++ encode value false) ∷ encode_pairs pairs

unfoldable pub canonical_query : List (Bytes × Bytes) → Bytes
unfolding encode
canonical_query pairs = join_with (codes "&") (sort_by bytes_le (encode_pairs pairs))

pub record Signed : Type 0 where
  pub date : Bytes
  pub payload_hash : Bytes
  pub authorization : Bytes

-- The packages, and the time of the call as it is printed.
pub record Signer : Type 0 where
  pub hmac : (key text : Bytes) → Bytes
  pub hex : Bytes → Bytes
  pub sha256 : Bytes → Bytes
  -- `%Y%m%dT%H%M%SZ` and `%Y%m%d`
  pub date : Bytes
  pub scope_date : Bytes

abbrev header_before : Bytes × Bytes → Bytes × Bytes → Bool
header_before a b = bytes_le a.0 b.0

abbrev header_lines : List (Bytes × Bytes) → Bytes
header_lines [] = []
header_lines ((name, value) ∷ headers) =
    name ++ codes ":" ++ trim value ++ 10 ∷ header_lines headers

abbrev names_of : List (Bytes × Bytes) → List Bytes
names_of [] = []
names_of ((name, value) ∷ headers) = name ∷ names_of headers

-- The headers that are signed, in the order of their names.
unfoldable pub signed_list :
    (host payload_hash date : Bytes) → List (Bytes × Bytes) → List (Bytes × Bytes)
signed_list host payload_hash date extra_headers = sort_by header_before (
    (codes "host", host)
    ∷ (codes "x-amz-content-sha256", payload_hash)
    ∷ (codes "x-amz-date", date)
    ∷ extra_headers)

unfoldable pub canonical_request :
    (method uri query : Bytes) → List (Bytes × Bytes) → (payload_hash : Bytes) → Bytes
canonical_request method uri query headers payload_hash = join_with (10 ∷ []) (
    method
    ∷ uri
    ∷ query
    ∷ header_lines headers
    ∷ join_with (codes ";") (names_of headers)
    ∷ payload_hash
    ∷ [])

-- `{scope_date}/{REGION}/{SERVICE}/aws4_request`
abbrev scope_of : Bytes → Bytes
scope_of scope_date = scope_date ++ codes "/auto/s3/aws4_request"

unfoldable pub signature : Signer → (secret string_to_sign : Bytes) → Bytes
signature k secret string_to_sign =
    let k_date = k.hmac (codes "AWS4" ++ secret) k.scope_date in
    let k_region = k.hmac k_date (codes "auto") in
    let k_service = k.hmac k_region (codes "s3") in
    let k_signing = k.hmac k_service (codes "aws4_request") in
    k.hex (k.hmac k_signing string_to_sign)

unfoldable pub sign :
    Signer
    → (access_key_id secret method host uri query : Bytes) → (extra_headers : List (Bytes × Bytes))
    → (payload : Bytes) → Signed
unfolding signed_list canonical_request signature
sign k access_key_id secret method host uri query extra_headers payload =
    let payload_hash = k.hex (k.sha256 payload) in
    let headers = signed_list host payload_hash k.date extra_headers in
    let scope = scope_of k.scope_date in
    let string_to_sign = join_with (10 ∷ []) (
      codes "AWS4-HMAC-SHA256"
      ∷ k.date
      ∷ scope
      ∷ k.hex (k.sha256 (canonical_request method uri query headers payload_hash))
      ∷ []) in
    record {
      date = k.date;
      payload_hash = payload_hash;
      authorization =
          codes "AWS4-HMAC-SHA256 Credential="
          ++ access_key_id
          ++ codes "/"
          ++ scope
          ++ codes ", SignedHeaders="
          ++ join_with (codes ";") (names_of headers)
          ++ codes ", Signature="
          ++ signature k secret string_to_sign;
    }
