-- ===== src/Examples/Recording.antt =====
-- A machine with one store of `.jsonl` files, of which one was recorded before and one is new. A
-- transcript is its id.
use agent_transcript.Prelude.{
  ℕ, Bytes, codes, ◌≡◌, refl, true, false, none, some, [], ◌∷◌, All, bytes_eq, lookup, arith,
  sort_by, bytes_le, split, insert_by, ends_with, starts_with,
}
use agent_transcript.Errors.{ok}
use agent_transcript.Fragment.{rsplit_once}
use agent_transcript.RepoId.{key, join}
use agent_transcript.Walk.{walk_tree, folder as in_folder, file, nothing}
use agent_transcript.Sources.{
  discover, matches_file, rule_matches, name_of, join_rel, join_parts, owns, load_from, longest,
  path_starts_with, components, is_prefix, Site, Kind, read, path, db, ext, files, load,
}
use agent_transcript.LocalState.{LocalStore, SourceRecord, World, ready, sources_of}
use agent_transcript.LocalState.Reload.{source_key, resolve_afresh, resolve_directory}
use agent_transcript.LocalState.Diff.{diff, files_found, scan_files, scan_db, files_of, is_covered}
use agent_transcript.LocalState.Diff.Valid.{IsValid, diff-IsValid}
use agent_transcript.LocalState.Diff.Owned.{diff-IsCovered}
use agent_transcript.LocalState.Diff.Noted.{Noted, diff-Noted}
use agent_transcript.LocalState.Diff.Again.{
  IsCurrent, IsListed, IsSteady, AreDistinct, scan_files-IsCurrent, scan_files_twice,
}
use agent_transcript.LocalState.Diff.Cached.{scan_db_again, resolve_directory-resolve_afresh}
use agent_transcript.Examples.{numbered, codex, repo, old, some_info}

abbrev pub folder : Site ℕ Bytes
folder = record {
  harness = codex;
  path = codes "/h";
  kind = files (ext (codes "jsonl")) [];
  loader = path (λ source. read source);
}

abbrev pub database : Site ℕ Bytes
database = record {
  harness = codex;
  path = codes "/d.db";
  kind = Kind.db;
  loader = db (ok ((codes "r", codes "f") ∷ [])) (λ reference. read reference);
}

abbrev pub desk : World ℕ Bytes
desk = record {
  sites = folder ∷ database ∷ [];
  entries_of = λ root. file (codes "b.txt") (some 5) 7 (
      in_folder (codes "d") (file (codes "c.jsonl") (some 5) 7 nothing)
        (file (codes "a.jsonl") (some 5) 7 nothing));
  stat = λ file. none;
  is_dir = λ dir. true;
  now = 100;
  unix_epoch = 0;
  origin_of = λ dir. key repo;
  file_path = λ text. none;
  content = record {
    transcript = λ t. record {
      id = t;
      info = record some_info { cwd = some (codes "/w") };
      body = 1 ∷ 2 ∷ [];
    };
    to_vec = λ document. ok document.transcript;
    sha256_hex = λ b. b;
  };
}

abbrev recorded : SourceRecord ℕ
recorded = record {
  harness = codex;
  source = codes "/h/a.jsonl";
  fingerprint = codes "stale";
  session_id = codes "s1";
  repo_key = some repo;
  state = ready;
  freshness = old;
  info = some_info;
}

abbrev shelf : LocalStore ℕ
shelf = record {
  state = record {
    schema = 2;
    sources = (1 ∷ 10 ∷ codes "/h/a.jsonl", recorded) ∷ [];
    repos = [];
    db_fingerprints = [];
    last_sweep = none;
  };
  dirty = false;
  report = record { loaded = 0; missing_cwd = 0; changed_repos = []; failures = [] };
}

shelf-IsValid : IsValid shelf
unfolding sources_of source_key
shelf-IsValid = ((refl, (refl, refl)), tt)

diff-IsValid_example : IsValid (diff desk shelf)
diff-IsValid_example = diff-IsValid desk shelf shelf-IsValid

diff-IsCovered_example :
    All (λ e. is_covered (folder ∷ database ∷ []) e.0 ≡ true) (sources_of (diff desk shelf))
diff-IsCovered_example = diff-IsCovered desk shelf shelf-IsValid

diff-Noted_example : Noted shelf (diff desk shelf)
diff-Noted_example = diff-Noted desk shelf

steady :
    All (IsSteady desk codex) (files_of desk folder) × AreDistinct desk codex (files_of desk folder)
unfolding files_of walk_tree files_found matches_file rule_matches name_of join_rel join_parts join
    load owns load_from longest path_starts_with components is_prefix source_key ends_with
    starts_with sort_by bytes_le rsplit_once split bytes_eq insert_by
steady = (((λ m e. cc), ((λ m e. cc), tt)), ((refl, tt), (tt, tt)))

scan_files-IsCurrent_example :
    All (IsCurrent desk codex (scan_files desk folder shelf)) (files_of desk folder)
    × All (IsListed desk folder (files_of desk folder)) (sources_of (scan_files desk folder shelf))
scan_files-IsCurrent_example = scan_files-IsCurrent desk folder shelf steady.0 steady.1

scan_files_twice_example :
    scan_files desk folder (scan_files desk folder shelf) ≡ scan_files desk folder shelf
scan_files_twice_example = scan_files_twice desk folder shelf steady.0 steady.1

scan_db_again_example :
    scan_db desk database (scan_db desk database shelf).1 ≡ (ok tt, (scan_db desk database shelf).1)
unfolding scan_db lookup discover
scan_db_again_example = scan_db_again desk database shelf refl

answered_again :
    resolve_directory
      (record desk { now = 200 })
      (codes "/w")
      (resolve_afresh desk (codes "/w") shelf).1
    ≡ resolve_afresh desk (codes "/w") shelf
answered_again =
    resolve_directory-resolve_afresh (record desk { now = 200 }) desk (codes "/w") shelf
      (omega arith)
