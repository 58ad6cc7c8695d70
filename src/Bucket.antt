-- ===== src/Bucket.antt =====
-- The object store that src/store.rs reaches over the network, as the other parts use it: `R2::get`,
-- `R2::put`, `R2::delete` and `R2::list_detailed`. `S` is the state of the world, which
-- other machines change between and during the calls; `B` and `E` are the types of a body and of an entity tag, which the callers pass on unread.
use agent_transcript.Prelude.{ℕ, Bytes, List, ◌≡◌, Option, some}
use agent_transcript.Errors.{Result, ok}

pub record Fetched (B E : Type 0) : Type 0 where
  pub body : B
  pub etag : Option E

pub data Precondition (E : Type 0) : Type 0 where
  none : Precondition E
  if_match : E → Precondition E
  if_none_match_star : Precondition E

-- `last_modified` is in nanoseconds, like every time.
pub record Listed : Type 0 where
  pub key : Bytes
  pub size : ℕ
  pub last_modified : Option ℕ

pub record Bucket (S B E : Type 0) : Type 0 where
  pub get : Bytes → S → Result (Option (Fetched B E)) × S
  pub put : Bytes → B → Precondition E → S → Result (Unit {0}) × S
  pub delete : Bytes → S → Result (Unit {0}) × S
  pub list_detailed : Bytes → S → Result (List Listed) × S

module _ {B E : Type 0} where
  -- What a conditional write needs of the object that it replaces.
  abbrev pub Allows : Precondition E → Option (Fetched B E) → Type 0
  Allows none held = Unit
  Allows (if_match e) held = (f : Fetched B E) × (held ≡ some f) × (f.etag ≡ some e)
  Allows if_none_match_star held = held ≡ Option.none

-- The moments of a store that several machines use: what it holds at a moment under a key, which moments
-- are not before which, and which follow one another with nothing between them.
pub record History (S B E : Type 0) : Type 1 where
  pub held : S → Bytes → Option (Fetched B E)
  pub reaches : S → S → Type 0
  pub next : S → S → Type 0

-- The moment at which a call that begins in `start` and ends in `end` replaces what is held under a key.
pub record Replaces {S B E : Type 0} (history : History S B E) (key : Bytes) (blob : B)
    (start end : S) : Type 0 where
  pub before : S
  pub after : S
  pub begun : history.reaches start before
  pub step : history.next before after
  pub ended : history.reaches after end
  pub object : Fetched B E
  pub stored : history.held after key ≡ some object
  pub body : object.body ≡ blob

-- The documented behaviour of the store that the program relies on. A read shows what was held at some
-- moment of the call; a write that succeeds has replaced, at a moment of the call, an object that its
-- condition allows; objects of equal entity tags have equal bodies.
pub record IsConditional (S B E : Type 0) (b : Bucket S B E) : Type 1 where
  pub history : History S B E
  pub get_shows :
      (key : Bytes) (s : S) (found : Option (Fetched B E))
      → (b.get key s).0 ≡ ok found
      → (t : S) × history.reaches s t
        × history.reaches t (b.get key s).1
        × (history.held t key ≡ found)
  pub put_replaces :
      (key : Bytes) (blob : B) (condition : Precondition E) (s : S)
      → (b.put key blob condition s).0 ≡ ok tt
      → (r : Replaces history key blob s (b.put key blob condition s).1) × Allows condition
          (history.held r.before key)
  pub etag_names :
      (key : Bytes) (s t : S) (f g : Fetched B E) (e : E)
      → history.held s key ≡ some f
      → history.held t key ≡ some g
      → f.etag ≡ some e
      → g.etag ≡ some e
      → f.body ≡ g.body
