-- ===== src/Examples.antt =====
-- Sample sessions, and the theorems applied to them. `HarnessId` is instantiated by numbers.
mod Snapshots
mod Listing
mod Archive
mod Reading
mod Caching
mod Sealing
mod Sweeping
mod Viewing
mod Committing
mod Recording
mod Copies
mod Addressing
mod Running
mod Serving
mod Conditions
use agent_transcript.Prelude.{
  ℕ, Bytes, codes, Bool, true, false, Option, none, some, List, [], ◌∷◌, ◌++◌, ◌==◌, ==_iff,
}
use agent_transcript.Harness.{Harness}
use agent_transcript.Freshness.{Freshness, Info}
use agent_transcript.Catalog.{Revision, SessionRecord, Catalog}
use agent_transcript.Merge.{LocalView, RemoteView}

instance abbrev pub numbered : Harness ℕ
numbered = record { beq = ◌==◌; beq_iff = ==_iff; as_str = λ n. n ∷ []; to_string = λ n. n ∷ [] }

abbrev pub codex : ℕ
codex = 1

abbrev pub repo : Bytes
repo = codes "repo"

abbrev pub some_info : Info
some_info = record { started_at = 1; title = none; cwd = none; git_branch = none; model = none }

abbrev pub snapshot : ℕ → ℕ → Bytes → Freshness
snapshot time messages hash = record {
  updated_at = some time;
  last_message_at = none;
  message_count = messages;
  content_hash = hash;
}

-- An old snapshot, a newer one, and one of the same time with another body.
abbrev pub old : Freshness
old = snapshot 10 3 (codes "aaaa")

abbrev pub new : Freshness
new = snapshot 20 5 (codes "bbbb")

abbrev pub twin : Freshness
twin = snapshot 20 5 (codes "cccc")

abbrev pub stored : Freshness → Revision
stored f = record {
  object_key = codes "v1/objects/sha256/" ++ key f.content_hash;
  freshness = f;
  info = some_info;
  size = 7;
}
  where
    key : Bytes → Bytes
    key [] = []
    key (a ∷ []) = []
    key (a ∷ b ∷ rest) = a ∷ b ∷ codes "/" ++ rest

abbrev pub session : Bytes → List Revision → SessionRecord ℕ
session id revisions = record {
  repo_key = repo;
  harness = codex;
  session_id = id;
  revisions = revisions;
}

abbrev pub catalog_of : List (SessionRecord ℕ) → Catalog ℕ
catalog_of sessions = record { schema = 1; sessions = sessions }

abbrev pub local_copy : Bytes → Freshness → LocalView ℕ
local_copy id f = record {
  harness = codex;
  session_id = id;
  repo_key = some repo;
  source = codes "file";
  fingerprint = codes "print";
  freshness = f;
  info = some_info;
  ambiguous = false;
}

abbrev pub remote_copy : Bytes → Freshness → RemoteView ℕ
remote_copy id f = record {
  harness = codex;
  session_id = id;
  repo_key = repo;
  freshness = f;
  object_key = codes "v1/objects/sha256/aa/aa";
  info = some_info;
  ambiguous = false;
}
