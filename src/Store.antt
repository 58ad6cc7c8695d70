-- ===== src/Store.antt =====
-- src/store.rs: the client of the object store. Sending a request is a parameter; the listing document is
-- in Store/Xml.
pub mod Xml
pub mod Entities
pub mod Pages
pub mod Conditional
use agent_transcript.Prelude.{
  ℕ, zero, suc, Bytes, codes, Bool, true, false, not, ◌&&◌, Option, none, some, List, [], ◌∷◌, ◌++◌,
  leb, ltb, ◌==◌, if◌then◌else◌, trim, map,
}
use agent_transcript.Errors.{
  Error, precondition, Result, ok, err, msg, ◌>>=◌, request_failed, reading_failed, listing_failed,
  http_status, truncated_without_token,
}
use agent_transcript.Fragment.{is_empty}
use agent_transcript.Bucket.{Fetched, Precondition, if_match, if_none_match_star, Listed, Bucket}
use agent_transcript.Sigv4.{Signer, Signed, sign, encode, canonical_query}
use agent_transcript.Store.Xml.{Parser, Page, parse_listing}

pub record R2 : Type 0 where
  pub endpoint : Bytes
  pub host : Bytes
  pub bucket : Bytes
  pub access_key_id : Bytes
  pub secret_access_key : Bytes

-- What is read of a response: a body that cannot be read is absent, as bytes and as text.
pub record Response : Type 0 where
  pub status : ℕ
  pub etag : Option Bytes
  pub bytes : Option Bytes
  pub text : Option Bytes

pub data Answer : Type 0 where
  failed : (message : Bytes) → Answer
  answered : Response → Answer

-- `ureq`, the packages behind the signature, and the tokens of an XML text. `S` is the state of the world.
pub record Net (S : Type 0) : Type 0 where
  pub run : (method url : Bytes) → List (Bytes × Bytes) → Option Bytes → S → Answer × S
  pub signer : S → Signer
  pub parser : Parser

-- The first characters of a UTF-8 text: `chars().take(n)`.
unfoldable pub take_chars : ℕ → Bytes → Bytes
take_chars n [] = []
take_chars zero (c ∷ s) =
    let rest = take_chars zero s in if leb 128 c && ltb c 192 then c ∷ rest else []
take_chars (suc n) (c ∷ s) =
    let more = take_chars (suc n) s in
    let rest = take_chars n s in if leb 128 c && ltb c 192 then c ∷ more else c ∷ rest

abbrev pub or_empty : Option Bytes → Bytes
or_empty none = []
or_empty (some text) = text

unfoldable pub response_error : (op target : Bytes) → Response → Error
unfolding take_chars
response_error op target r =
    msg (http_status op target r.status (take_chars 300 (trim (or_empty r.text))))

-- `200..=299`, which is also `is_success`
unfoldable pub is_success : ℕ → Bool
is_success status = leb 200 status && leb status 299

abbrev with_query : Bytes → Bytes → Bytes
with_query url query = if is_empty query then url else url ++ codes "?" ++ query

-- The headers of a precondition.
unfoldable pub headers_of : Precondition Bytes → List (Bytes × Bytes)
headers_of Precondition.none = []
headers_of (if_match etag) = (codes "if-match", etag) ∷ []
headers_of if_none_match_star = (codes "if-none-match", codes "*") ∷ []

-- What each operation makes of a response.
unfoldable pub got : Bytes → Response → Result (Option (Fetched Bytes Bytes))
unfolding is_success response_error
got key r =
    if is_success r.status
    then elim r.bytes [
      | none ↦ err (msg (reading_failed key))
      | some body ↦ ok (some (record { body = body; etag = r.etag }))
    ]
    else if r.status == 404
    then ok none
    else err (response_error (codes "getting") key r)

unfoldable pub written : Bytes → Response → Result (Unit {0})
unfolding is_success response_error
written key r =
    if is_success r.status
    then ok tt
    else if r.status == 412
    then err precondition
    else err (response_error (codes "putting") key r)

unfoldable pub headed : Bytes → Response → Result (Option Bytes)
unfolding is_success response_error
headed key r =
    if is_success r.status
    then ok r.etag
    else if r.status == 404
    then ok none
    else err (response_error (codes "heading") key r)

unfoldable pub deleted : Bytes → Response → Result (Unit {0})
unfolding is_success response_error
deleted key r = if is_success r.status then ok tt else err (response_error (codes "deleting") key r)

unfoldable pub listed : Parser → Bytes → Response → Result Page
unfolding is_success response_error
listed parser prefix r =
    if not (is_success r.status)
    then err (response_error (codes "listing") prefix r)
    else elim r.text [
      | none ↦ err (msg (listing_failed prefix))
      | some xml ↦ parse_listing parser prefix xml
    ]

-- The pairs of the query for one page.
unfoldable pub page_query : Bytes → Option Bytes → List (Bytes × Bytes)
page_query prefix none = (codes "list-type", codes "2") ∷ (codes "prefix", prefix) ∷ []
page_query prefix (some token) =
    (codes "list-type", codes "2")
    ∷ (codes "prefix", prefix)
    ∷ (codes "continuation-token", token)
    ∷ []

module _ {S : Type 0} (net : Net S) (r2 : R2) where
  unfoldable pub request :
      (method uri query : Bytes) → List (Bytes × Bytes) → Option Bytes → S → Result Response × S
  unfolding sign
  request method uri query extra body s =
      let signed =
        sign (net.signer s) r2.access_key_id r2.secret_access_key method r2.host uri query extra
          (or_empty body) in
      let headers =
        (codes "x-amz-date", signed.date)
          ∷ (codes "x-amz-content-sha256", signed.payload_hash)
          ∷ extra
        ++ (codes "authorization", signed.authorization) ∷ [] in
      let (answer, s') = net.run method (with_query (r2.endpoint ++ uri) query) headers body s in
      elim answer [
        | failed message ↦ (err (msg (request_failed method uri message)), s')
        | answered response ↦ (ok response, s')
      ]

  unfoldable pub object_uri : Bytes → Bytes
  unfolding encode
  object_uri key = codes "/" ++ encode r2.bucket false ++ codes "/" ++ encode key true

  unfoldable pub get_sync : Bytes → S → Result (Option (Fetched Bytes Bytes)) × S
  unfolding request object_uri got
  get_sync key s =
      let (response, s') = request (codes "GET") (object_uri key) [] [] none s in
      (response >>= got key, s')

  unfoldable pub put_sync : Bytes → Bytes → Precondition Bytes → S → Result (Unit {0}) × S
  unfolding request object_uri headers_of written
  put_sync key body condition s =
      let (response, s') =
        request (codes "PUT") (object_uri key) [] (headers_of condition) (some body) s in
      (response >>= written key, s')

  unfoldable pub head_etag_sync : Bytes → S → Result (Option Bytes) × S
  unfolding request object_uri headed
  head_etag_sync key s =
      let (response, s') = request (codes "HEAD") (object_uri key) [] [] none s in
      (response >>= headed key, s')

  unfoldable pub delete_sync : Bytes → S → Result (Unit {0}) × S
  unfolding request object_uri deleted
  delete_sync key s =
      let (response, s') = request (codes "DELETE") (object_uri key) [] [] none s in
      (response >>= deleted key, s')

  -- One round of the loop: the page behind a token.
  unfoldable pub list_page : Bytes → Option Bytes → S → Result Page × S
  unfolding request page_query listed encode canonical_query
  list_page prefix token s =
      let (response, s') =
        request (codes "GET") (codes "/" ++ encode r2.bucket false)
          (canonical_query (page_query prefix token)) [] none s in
      (response >>= listed net.parser prefix, s')

  -- The loop, on fuel; a listing of more than `fuel` pages gives nothing.
  unfoldable pub list_loop :
      ℕ → Bytes → Option Bytes → List Listed → S → Option (Result (List Listed) × S)
  list_loop zero prefix token objects s = none
  list_loop (suc fuel) prefix token objects s =
      let (answer, s') = list_page prefix token s in
      elim answer [
        | err e ↦ some (err e, s')
        | ok page ↦
            if not page.truncated
            then some (ok (objects ++ page.objects), s')
            else elim page.next_token [
              | none ↦ some (err (msg (truncated_without_token prefix)), s')
              | some next ↦ list_loop fuel prefix (some next) (objects ++ page.objects) s'
            ]
      ]

  unfoldable pub list_detailed_sync : ℕ → Bytes → S → Option (Result (List Listed) × S)
  unfolding list_loop
  list_detailed_sync fuel prefix s = list_loop fuel prefix none [] s
