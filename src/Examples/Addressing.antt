-- ===== src/Examples/Addressing.antt =====
-- Two spellings of a remote address, a table of stores, and a database with one session.
use agent_transcript.Prelude.{
  Memᴰ, ℕ, Bytes, codes, bytes_eq, to_ascii_lowercase, ◌≡◌, ◌⊎◌, refl, true, false, none, some,
  List, [], ◌∷◌, ◌≤◌, All, map, length,
}
use agent_transcript.Errors.{ok}
use agent_transcript.RepoId.{
  is_supported, kept_port, host_of, Url, Parsed, url, normalize_url, normalize_scp,
}
use agent_transcript.Fragment.{split_once, rsplit_once}
use agent_transcript.RepoId.Agree.{normalize_url_scp}
use agent_transcript.Sources.{
  Site, Discovery, read, broken, no_store, owns, load_from, load, discover,
}
use agent_transcript.Sources.Table.{LocalIds, Defaults, sites}
use agent_transcript.Sources.Table.Consistent.{IsConsistent, sites-IsConsistent}
use agent_transcript.Sources.Owner.{serves, load_owner, discover-load}
use agent_transcript.Examples.{numbered, codex}
use agent_transcript.Examples.Recording.{folder, database}

abbrev address : Url
address = record {
  scheme = codes "https";
  host_str = some (codes "git.example");
  port = some 443;
  path = codes "/team/tool.git";
}

abbrev parse_url : Bytes → Parsed
parse_url raw = url address

same_repository :
    normalize_url parse_url (codes "https://git.example/team/tool.git")
    ≡ normalize_scp (codes "me@Git.Example:team/tool.git")
unfolding is_supported kept_port split_once to_ascii_lowercase host_of bytes_eq rsplit_once
same_repository =
    normalize_url_scp parse_url (codes "https://git.example/team/tool.git")
      (codes "me@Git.Example:team/tool.git") (codes "me@Git.Example") (codes "git.example")
      (codes "team/tool.git") address refl refl refl refl refl refl refl

load_owner_example :
    ((owner : Site ℕ Bytes) × (load (folder ∷ database ∷ []) codex (codes "/h/a.jsonl")
        ≡ load_from owner (codes "/h/a.jsonl"))
      × Memᴰ owner (folder ∷ database ∷ [])
      × (serves codex (codes "/h/a.jsonl") owner ≡ true)
      × All
          (λ t. serves codex (codes "/h/a.jsonl") t ≡ true → length t.path ≤ length owner.path)
          (folder ∷ database ∷ []))
    ⊎ ((load (folder ∷ database ∷ []) codex (codes "/h/a.jsonl")
          ≡ broken (no_store (numbered.to_string codex) (codes "/h/a.jsonl")))
        × All (λ t. serves codex (codes "/h/a.jsonl") t ≡ false) (folder ∷ database ∷ []))
load_owner_example = load_owner (folder ∷ database ∷ []) codex (codes "/h/a.jsonl")

discover-load_example :
    (found : List Discovery) × (discover database ≡ ok found)
    × (map (λ d. load_from database d.source) found
        ≡ map (λ (p : Bytes × Bytes). read p.0) ((codes "r", codes "f") ∷ []))
    × All (λ d. owns database d.source ≡ true) found
discover-load_example =
    discover-load database (λ reference. read reference) ((codes "r", codes "f") ∷ []) refl

abbrev ids : LocalIds ℕ
ids = record {
  claude_code = 1;
  codex = 2;
  pi = 3;
  campfire = 4;
  cursor = 5;
  amp = 6;
  antigravity = 7;
  cowork = 8;
  grok = 9;
  grok_bot = 10;
  fx = 11;
  hermes = 12;
  cursor_desktop = 13;
  opencode = 14;
}

abbrev home_stores : Defaults Bytes
home_stores = record {
  claude = some (record { root = codes "/h/claude"; load = λ p. read p });
  codex = none;
  pi = none;
  campfire = none;
  cursor = none;
  amp = none;
  antigravity = none;
  cowork = none;
  grok = none;
  grok_bot = some (record { root = codes "/h/bot"; load = λ p. read p });
  grok_agents = some (record { root = codes "/h/agents"; load = λ p. read p });
  fx = none;
  hermes = some (record { root = codes "/h/hermes.db"; found = ok []; load = λ p. read p });
  cursor_desktop = none;
  opencode = none;
  antigravity_at = λ root. record { root = root; load = λ p. read p };
  user_home = some (codes "/h");
  is_dir = λ p. true;
}

sites-IsConsistent_example : All IsConsistent (sites ids home_stores)
sites-IsConsistent_example = sites-IsConsistent ids home_stores
