-- ===== src/Examples/Copies.antt =====
-- A store with two copies of one session and a broken record.
use agent_transcript.Prelude.{ℕ, codes, ◌≡◌, refl, some, none, [], ◌∷◌, false, keep_if, bytes_eq}
use agent_transcript.LocalState.{LocalStore, SourceRecord, RecordState, ready, sources_of}
use agent_transcript.Sessions.Copies.{local_views, records, is_grouped, grouped}
use agent_transcript.Sessions.Copies.Partition.{IsShown, local_views-IsShown}
use agent_transcript.Examples.{numbered, codex, repo, old, some_info}

abbrev copy : SourceRecord ℕ
copy = record {
  harness = codex;
  source = codes "/h/a.jsonl";
  fingerprint = codes "f";
  session_id = codes "s1";
  repo_key = some repo;
  state = ready;
  freshness = old;
  info = some_info;
}

abbrev second : SourceRecord ℕ
second = record copy { source = codes "/h/b.jsonl" }

abbrev damaged : SourceRecord ℕ
damaged = record copy { source = codes "/h/c.jsonl"; state = RecordState.broken }

abbrev copies : LocalStore ℕ
copies = record {
  state = record {
    schema = 2;
    sources = (codes "a", copy) ∷ (codes "b", second) ∷ (codes "c", damaged) ∷ [];
    repos = [];
    db_fingerprints = [];
    last_sweep = none;
  };
  dirty = false;
  report = record { loaded = 0; missing_cwd = 0; changed_repos = []; failures = [] };
}

usable : keep_if is_grouped (records copies) ≡ copy ∷ second ∷ []
unfolding records is_grouped sources_of
usable = refl

one_group : grouped copies ≡ (copy, second ∷ []) ∷ []
unfolding grouped bytes_eq
one_group = refl

local_views-IsShown_example : IsShown (keep_if is_grouped (records copies)) (local_views copies)
local_views-IsShown_example = local_views-IsShown copies
