-- ===== src/Sources/Table.antt =====
-- src/sources.rs: the table of local stores, and how an error of a store becomes a load failure. What
-- each store of the txcript package finds as its default location is a parameter.
pub mod Consistent
use agent_transcript.Prelude.{
  Bytes, codes, bytes_eq, ◌≡◌, refl, ◌⊎◌, Bool, true, false, not, ◌&&◌, Option, none, some, List,
  [], ◌∷◌, ◌++◌, any, All, All-append, if◌then◌else◌, inl, inr,
}
use agent_transcript.Errors.{Result}
use agent_transcript.RepoId.{join}
use agent_transcript.Sources.{
  Load, Loader, path, db, Site, Kind, files, session_dirs, grok_bot_dirs, ext, cowork_record,
  transient, broken, shown, read,
}

-- The ids of the harnesses that have a local store.
pub record LocalIds (H : Type 0) : Type 0 where
  pub claude_code : H
  pub codex : H
  pub pi : H
  pub campfire : H
  pub cursor : H
  pub amp : H
  pub antigravity : H
  pub cowork : H
  pub grok : H
  pub grok_bot : H
  pub fx : H
  pub hermes : H
  pub cursor_desktop : H
  pub opencode : H

-- A store of session files: where it looks, and how it loads a path.
pub record FileStore (T : Type 0) : Type 0 where
  pub root : Bytes
  pub load : Bytes → Load T

-- A store inside a database.
pub record DbStore (T : Type 0) : Type 0 where
  pub root : Bytes
  pub found : Result (List (Bytes × Bytes))
  pub load : Bytes → Load T

-- The default stores that the package finds, with `agents` of the Grok Bot store beside it.
pub record Defaults (T : Type 0) : Type 0 where
  pub claude : Option (FileStore T)
  pub codex : Option (FileStore T)
  pub pi : Option (FileStore T)
  pub campfire : Option (FileStore T)
  pub cursor : Option (FileStore T)
  pub amp : Option (FileStore T)
  pub antigravity : Option (FileStore T)
  pub cowork : Option (FileStore T)
  pub grok : Option (FileStore T)
  pub grok_bot : Option (FileStore T)
  pub grok_agents : Option (FileStore T)
  pub fx : Option (FileStore T)
  pub hermes : Option (DbStore T)
  pub cursor_desktop : Option (DbStore T)
  pub opencode : Option (DbStore T)
  pub antigravity_at : Bytes → FileStore T
  pub user_home : Option Bytes
  pub is_dir : Bytes → Bool

abbrev pub concat {ℓ} : {A : Type ℓ} → List (List A) → List A
concat [] = []
concat (xs ∷ xss) = xs ++ concat xss

pub concat-All {ℓ κ} :
    {A : Type ℓ} (P : A → Type κ) (xss : List (List A)) → All (All P) xss → All P (concat xss)
concat-All P [] h = tt
concat-All P (xs ∷ xss) (p, h) = All-append P xs (concat xss) p (concat-All P xss h)

abbrev pub file_site : {H T : Type 0} → H → Kind → Option (FileStore T) → List (Site H T)
file_site harness kind none = []
file_site harness kind (some s) =
    record { harness = harness; path = s.root; kind = kind; loader = path s.load } ∷ []

-- A database site, with the path of the database below the store's directory when it has one.
abbrev pub db_site : {H T : Type 0} → H → (Bytes → Bytes) → Option (DbStore T) → List (Site H T)
db_site harness below none = []
db_site harness below (some s) =
    record { harness = harness; path = below s.root; kind = Kind.db; loader = db s.found s.load }
    ∷ []

unfoldable pub conversations : Bytes → Bytes
conversations root = join root (codes "conversations")

module _ {T : Type 0} where
  default_antigravity : (Bytes → Bool) → Option (FileStore T) → List (FileStore T)
  unfolding conversations
  default_antigravity is_dir none = []
  default_antigravity is_dir (some s) = if is_dir (conversations s.root) then s ∷ [] else []

  ide_antigravity :
      (Bytes → Bool)
      → (Bytes → FileStore T)
      → List (FileStore T)
      → Option Bytes
      → List (FileStore T)
  unfolding conversations
  ide_antigravity is_dir at stores none = []
  ide_antigravity is_dir at stores (some home) =
      let ide = join (join home (codes ".gemini")) (codes "antigravity") in
      if is_dir (conversations ide) && not (any (λ s. bytes_eq s.root (at ide).root) stores)
      then at ide ∷ []
      else []

  unfoldable pub antigravity_stores : Defaults T → List (FileStore T)
  unfolding default_antigravity ide_antigravity
  antigravity_stores d =
      let stores = default_antigravity d.is_dir d.antigravity in
      stores ++ ide_antigravity d.is_dir d.antigravity_at stores d.user_home

module _ {H T : Type 0} where
  unfoldable pub antigravity_sites : H → List (FileStore T) → List (Site H T)
  unfolding conversations
  antigravity_sites harness [] = []
  antigravity_sites harness (s ∷ stores) =
      record {
        harness = harness;
        path = conversations s.root;
        kind = files (ext (codes "db")) [];
        loader = path s.load;
      }
      ∷ antigravity_sites harness stores

  -- The Grok Bot sites: the directory of agents only beside a default store.
  unfoldable pub grok_bot_sites : H → Option (FileStore T) → Option (FileStore T) → List (Site H T)
  grok_bot_sites harness none agents = []
  grok_bot_sites harness (some s) agents =
      file_site harness grok_bot_dirs (some s) ++ file_site harness grok_bot_dirs agents

  -- The sites of each store, in the order of the table.
  unfoldable pub site_lists : LocalIds H → Defaults T → List (List (Site H T))
  unfolding antigravity_stores antigravity_sites grok_bot_sites
  site_lists id d =
      file_site id.claude_code
        (files (ext (codes "jsonl")) (codes "subagents" ∷ codes "tool-results" ∷ [])) d.claude
      ∷ file_site id.codex (files (ext (codes "jsonl")) []) d.codex
      ∷ file_site id.pi (files (ext (codes "jsonl")) []) d.pi
      ∷ file_site id.campfire (files (ext (codes "jsonl")) []) d.campfire
      ∷ file_site id.cursor (files (ext (codes "db")) []) d.cursor
      ∷ file_site id.amp (files (ext (codes "json")) []) d.amp
      ∷ antigravity_sites id.antigravity (antigravity_stores d)
      ∷ file_site id.cowork (files cowork_record []) d.cowork
      ∷ file_site id.grok (session_dirs (codes "updates.jsonl" ∷ codes "chat_history.jsonl" ∷ []))
          d.grok
      ∷ grok_bot_sites id.grok_bot d.grok_bot d.grok_agents
      ∷ file_site id.fx (session_dirs (codes "events.jsonl" ∷ [])) d.fx
      ∷ db_site id.hermes (λ p. p) d.hermes
      ∷ db_site id.cursor_desktop (λ p. join (join p (codes "globalStorage")) (codes "state.vscdb"))
          d.cursor_desktop
      ∷ db_site id.opencode (λ p. p) d.opencode
      ∷ []

  unfoldable pub sites : LocalIds H → Defaults T → List (Site H T)
  unfolding site_lists
  sites id d = concat (site_lists id d)

-- `txcript::Error` as far as the code tells its cases apart, each with its text.
pub data ErrorKind : Type 0 where
  would_block timed_out interrupted other_kind : ErrorKind

pub data TxError : Type 0 where
  io : ErrorKind → (text : Bytes) → TxError
  remote : (text : Bytes) → TxError
  other : (text : Bytes) → TxError

-- `is_transient_io` where the target is not Windows.
unfoldable pub is_transient_io : ErrorKind → Bool
is_transient_io would_block = true
is_transient_io timed_out = true
is_transient_io interrupted = true
is_transient_io other_kind = false

unfoldable pub load_failure : {T : Type 0} → TxError → Load T
unfolding is_transient_io
load_failure (io kind text) =
    if is_transient_io kind then transient (shown text) else broken (shown text)
load_failure (remote text) = transient (shown text)
load_failure (other text) = broken (shown text)

-- `PathLoader::load` and `DbLoader::load`: `Store::load`, then `to_common`, both of the package.
unfoldable pub load_common : {N R T : Type 0} → (R → TxError ⊎ N) → (N → TxError ⊎ T) → R → Load T
unfolding load_failure
load_common store_load to_common reference = elim (store_load reference) [
  | inl e ↦ load_failure e
  | inr native ↦ elim (to_common native) [ inl e ↦ load_failure e | inr t ↦ read t ]
]
