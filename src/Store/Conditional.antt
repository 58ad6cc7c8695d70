-- ===== src/Store/Conditional.antt =====
-- src/store.rs: `get` and `put` against the interface of the object store that the other parts use. What
-- the server does with a conditional request is a hypothesis.
use agent_transcript.Prelude.{
  Bytes, codes, ◌≡◌, true, Option, none, some, List, [], ◌∷◌, ◌++◌, ◌≢◌, bytes_eq, if◌then◌else◌,
  All,
}
use agent_transcript.Errors.{Result}
use agent_transcript.Bucket.{Fetched, Listed, Bucket, History, Replaces}
use agent_transcript.Store.{
  R2, Net, Response, answered, request, object_uri, is_success, get_sync, put_sync, delete_sync,
}

-- What a request header demands of the object that the server holds, as RFC 9110 defines it: `if-match`
-- with an entity tag wants the object of that tag, `if-none-match` wants no object if its value is
-- `*`, and no object of the tag otherwise.
unfoldable pub Demands : Bytes × Bytes → Option (Fetched Bytes Bytes) → Type 0
unfolding bytes_eq
Demands (name, value) held =
    if bytes_eq name (codes "if-match")
    then ((f : Fetched Bytes Bytes) × (held ≡ some f) × (f.etag ≡ some value))
    else if bytes_eq name (codes "if-none-match")
    then (if bytes_eq value (codes "*")
        then held ≡ none
        else ((f : Fetched Bytes Bytes) → held ≡ some f → f.etag ≢ some value))
    else Unit

-- The server behind `net`, by the methods and URLs of the requests that reach it, with any headers. What
-- it holds under a key is under the URL of that key. A read shows what was held at a moment of the
-- request; a write that succeeds has, at a moment of the request, replaced an object for which every
-- header of the request holds; objects of equal entity tags have equal bodies.
pub record IsServer {S : Type 0} (net : Net S) (r2 : R2) : Type 1 where
  pub history : History S Bytes Bytes
  pub get_answers :
      (key body : Bytes) (headers : List (Bytes × Bytes)) (s : S) (r : Response)
      → (net.run (codes "GET") (r2.endpoint ++ object_uri net r2 key) headers none s).0 ≡ answered r
      → is_success r.status ≡ true
      → r.bytes ≡ some body
      → (t : S) × history.reaches s t
        × history.reaches t
            (net.run (codes "GET") (r2.endpoint ++ object_uri net r2 key) headers none s).1
        × (history.held t key ≡ some (record { body = body; etag = r.etag }))
  pub get_missing :
      (key : Bytes) (headers : List (Bytes × Bytes)) (s : S) (r : Response)
      → (net.run (codes "GET") (r2.endpoint ++ object_uri net r2 key) headers none s).0 ≡ answered r
      → r.status ≡ 404
      → (t : S) × history.reaches s t
        × history.reaches t
            (net.run (codes "GET") (r2.endpoint ++ object_uri net r2 key) headers none s).1
        × (history.held t key ≡ none)
  pub put_answers :
      (key body : Bytes) (headers : List (Bytes × Bytes)) (s : S) (r : Response)
      → (net.run (codes "PUT") (r2.endpoint ++ object_uri net r2 key) headers (some body) s).0
        ≡ answered r
      → is_success r.status ≡ true
      → (w : Replaces history key body s
          (net.run (codes "PUT") (r2.endpoint ++ object_uri net r2 key) headers (some body) s).1)
        × All (λ header. Demands header (history.held w.before key)) headers
  pub etag_names :
      (key : Bytes) (s t : S) (f g : Fetched Bytes Bytes) (e : Bytes)
      → history.held s key ≡ some f
      → history.held t key ≡ some g
      → f.etag ≡ some e
      → g.etag ≡ some e
      → f.body ≡ g.body

module _ {S : Type 0} (net : Net S) (r2 : R2) (listing : Bytes → S → Result (List Listed) × S) where
  -- The client as the other parts see it, with the listing as a whole as a parameter.
  unfoldable pub r2_bucket : Bucket S Bytes Bytes
  unfolding get_sync put_sync delete_sync
  r2_bucket = record {
    get = get_sync net r2;
    put = put_sync net r2;
    delete = delete_sync net r2;
    list_detailed = listing;
  }

module _ {S : Type 0} (net : Net S) (r2 : R2) where
  -- A request that was answered has gone to the endpoint's URL with the extra headers among its own, and
  -- it ends when the server has answered.
  record Sent (method uri : Bytes) (extra : List (Bytes × Bytes)) (body : Option Bytes) (s : S)
      (r : Response) : Type 0 where
    date : Bytes × Bytes
    hash : Bytes × Bytes
    authorization : Bytes × Bytes
    answer :
        (net.run method
          (r2.endpoint ++ uri)
          ((date ∷ hash ∷ extra) ++ (authorization ∷ []))
          body
          s).0
        ≡ answered r
    final :
        (net.run method
          (r2.endpoint ++ uri)
          ((date ∷ hash ∷ extra) ++ (authorization ∷ []))
          body
          s).1
        ≡ (request net r2 method uri [] extra body s).1
