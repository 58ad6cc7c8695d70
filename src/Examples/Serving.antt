-- ===== src/Examples/Serving.antt =====
-- A server of one object, a listing of two pages, and an encoded key.
use agent_transcript.Prelude.{
  ℕ, ◌+◌, Bytes, codes, bytes_eq, ◌≡◌, refl, true, false, Option, none, some, List, [], ◌∷◌, ◌==◌,
  if◌then◌else◌, trim, arith,
}
use agent_transcript.Errors.{ok}
use agent_transcript.Fragment.{split_once}
use agent_transcript.Sigv4.{Signer, encode}
use agent_transcript.Sigv4.RoundTrip.{decode, decode-encode}
use agent_transcript.Store.{R2, Net, Answer, answered, list_page, list_detailed_sync}
use agent_transcript.Store.Xml.{
  Parser, Token, Page, element_start, element_close, text, parse_listing,
}
use agent_transcript.Store.Pages.{Pages, more, last, list_detailed_sync-Pages}

some_injective : {A : Type 0} {a b : A} → some a ≡ some b → a ≡ b
some_injective e = cc

abbrev pub account : R2
account = record {
  endpoint = codes "https://store.example";
  host = codes "store.example";
  bucket = codes "archive";
  access_key_id = codes "id";
  secret_access_key = codes "secret";
}

abbrev pub no_digest : Signer
no_digest = record {
  hmac = λ key t. [];
  hex = λ b. b;
  sha256 = λ b. [];
  date = codes "20260101T000000Z";
  scope_date = codes "20260101";
}

abbrev reply : ℕ → Option Bytes → Answer
reply status body = answered (record { status = status; etag = none; bytes = body; text = body })

abbrev pub no_tokens : Parser
no_tokens = record { tokens = λ xml. []; parse_date = λ t. none }

decode-encode_example : decode (encode (codes "v1/a b") true) ≡ codes "v1/a b"
decode-encode_example =
    decode-encode (codes "v1/a b") true
      (omega arith, (omega arith, (omega arith, (omega arith, (omega arith, (omega arith, tt))))))

-- The pages are numbered by the state.
abbrev page_tokens : Bytes → List Token
page_tokens [] = []
page_tokens (n ∷ xml) =
    if n == 0
    then element_start (codes "Contents")
      ∷ element_start (codes "Key")
      ∷ text (codes "a&amp;b")
      ∷ element_close (codes "Key")
      ∷ element_close (codes "Contents")
      ∷ element_start (codes "IsTruncated")
      ∷ text (codes "true")
      ∷ element_close (codes "IsTruncated")
      ∷ element_start (codes "NextContinuationToken")
      ∷ text (codes "t")
      ∷ element_close (codes "NextContinuationToken")
      ∷ []
    else []

abbrev pager : Net ℕ
pager = record {
  run = λ method url headers body n. (reply 200 (some (n ∷ [])), n + 1);
  signer = λ s. no_digest;
  parser = record { tokens = page_tokens; parse_date = λ t. none };
}

abbrev first_page : Page
first_page = record {
  objects = record { key = codes "a&b"; size = 0; last_modified = none } ∷ [];
  truncated = true;
  next_token = some (codes "t");
}

abbrev last_page : Page
last_page = record { objects = []; truncated = false; next_token = none }

first_is : (list_page pager account [] none 0).0 ≡ ok first_page
unfolding list_page parse_listing bytes_eq trim split_once
first_is = refl

last_is : (list_page pager account [] (some (codes "t")) 1).0 ≡ ok last_page
unfolding list_page parse_listing bytes_eq trim split_once
last_is = refl

served : Pages pager account [] none 0 2 (ok (first_page.objects)) 2
unfolding list_page
served =
    more none 0 2 first_page (codes "t") 1 (ok []) first_is refl refl
      (last (some (codes "t")) 1 last_page last_is refl)

list_detailed_sync-Pages_example :
    list_detailed_sync pager account 5 [] 0 ≡ some (ok (first_page.objects), 2)
list_detailed_sync-Pages_example =
    list_detailed_sync-Pages pager account [] 5 2 0 2 (ok first_page.objects) served (omega arith)
