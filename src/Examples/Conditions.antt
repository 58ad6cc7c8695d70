-- ===== src/Examples/Conditions.antt =====
-- A server of any number of objects that tests the conditions of a request. An object is its own entity
-- tag, and the state is the list of the writes, the last one first.
use agent_transcript.Prelude.{
  ℕ, Bytes, codes, bytes_eq, lookup, ◌≡◌, Bool, true, false, not, Option, none, some, List, ◌∷◌,
  ◌++◌, all, if◌then◌else◌,
}
use agent_transcript.Bucket.{Fetched, History}
use agent_transcript.Store.{Net, Answer, answered, object_uri, or_empty}
use agent_transcript.Examples.Serving.{account, no_digest, no_tokens}

abbrev Writes : Type 0
Writes = List (Bytes × Bytes)

abbrev object : Option Bytes → Option (Fetched Bytes Bytes)
object none = none
object (some b) = some (record { body = b; etag = some b })

abbrev has_etag : Bytes → Option Bytes → Bool
has_etag value none = false
has_etag value (some b) = bytes_eq b value

abbrev is_absent : Option Bytes → Bool
is_absent none = true
is_absent (some b) = false

abbrev if_none_match : Bytes → Option Bytes → Bool
if_none_match value held =
    if bytes_eq value (codes "*") then is_absent held else not (has_etag value held)

abbrev meets : Option Bytes → Bytes × Bytes → Bool
meets held (name, value) =
    if bytes_eq name (codes "if-match")
    then has_etag value held
    else if bytes_eq name (codes "if-none-match")
    then if_none_match value held
    else true

abbrev reply : ℕ → Option Bytes → Option Bytes → Answer
reply status etag body =
    answered (record { status = status; etag = etag; bytes = body; text = body })

abbrev get_reply : Option Bytes → Answer
get_reply none = reply 404 none none
get_reply (some b) = reply 200 (some b) (some b)

abbrev put_reply : Bool → Bytes → Bytes → Writes → Answer × Writes
put_reply true url body s = (reply 200 none none, (url, body) ∷ s)
put_reply false url body s = (reply 412 none none, s)

abbrev serve : Bool → Bytes → List (Bytes × Bytes) → Option Bytes → Writes → Answer × Writes
serve true url headers body s = (get_reply (lookup url s), s)
serve false url headers body s =
    put_reply (all (meets (lookup url s)) headers) url (or_empty body) s

abbrev honest_net : Net Writes
honest_net = record {
  run = λ method url headers body s. serve (bytes_eq method (codes "GET")) url headers body s;
  signer = λ s. no_digest;
  parser = no_tokens;
}

abbrev url_of : Bytes → Bytes
url_of key = account.endpoint ++ object_uri honest_net account key

-- One machine: time passes only when it writes.
abbrev honest_history : History Writes Bytes Bytes
honest_history = record {
  held = λ s key. object (lookup (url_of key) s);
  reaches = λ s t. s ≡ t;
  next = λ s t. (entry : Bytes × Bytes) × (t ≡ entry ∷ s);
}
