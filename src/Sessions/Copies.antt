-- ===== src/Sessions/Copies.antt =====
-- src/sessions.rs: `local_views` and `view_of`; src/local_state.rs: `LocalStore::grouped`. The hash map
-- of the groups is a list in the order in which they come up; the source leaves its order open.
pub mod Partition
use agent_transcript.Prelude.{
  Bytes, bytes_eq, Bool, true, false, not, ◌&&◌, Option, none, some, List, [], ◌∷◌, ◌++◌, map,
  if◌then◌else◌,
}
use agent_transcript.Harness.{Harness}
use agent_transcript.Fragment.{is_empty}
use agent_transcript.LocalState.{LocalStore, SourceRecord, RecordState, ready, pending, sources_of}
use agent_transcript.Merge.{LocalView}
use agent_transcript.Sessions.{choose_local}

abbrev pub is_broken : RecordState → Bool
is_broken ready = false
is_broken pending = false
is_broken RecordState.broken = true

abbrev pub same_repo_key : Option Bytes → Option Bytes → Bool
same_repo_key none none = true
same_repo_key none (some k) = false
same_repo_key (some k) none = false
same_repo_key (some k) (some l) = bytes_eq k l

-- One entry of the map: its first record, and those pushed behind it.
abbrev pub Group : Type 0 → Type 0
Group H = SourceRecord H × List (SourceRecord H)

module _ {H : Type 0} where
  unfoldable pub view_of : SourceRecord H → LocalView H
  view_of r = record {
    harness = r.harness;
    session_id = r.session_id;
    repo_key = r.repo_key;
    source = r.source;
    fingerprint = r.fingerprint;
    freshness = r.freshness;
    info = r.info;
    ambiguous = false;
  }

  -- A record that `grouped` does not pass over.
  unfoldable pub is_grouped : SourceRecord H → Bool
  is_grouped r = not (is_broken r.state) && not (is_empty r.session_id)

  -- `store.records()`
  unfoldable pub records : LocalStore H → List (SourceRecord H)
  unfolding sources_of
  records s = map (λ entry. entry.1) (sources_of s)

  unfoldable pub view_of_group : Group H → LocalView H
  unfolding view_of
  view_of_group (first, others) = choose_local (view_of first) (map view_of others)

module _ {H : Type 0} ⦃h : Harness H⦄ where
  -- Two records with one key of the map.
  unfoldable pub same_group : SourceRecord H → SourceRecord H → Bool
  same_group r s =
      h.beq r.harness s.harness
      && bytes_eq r.session_id s.session_id
      && same_repo_key r.repo_key s.repo_key

  -- `groups.entry(key).or_default().push(record)`
  unfoldable pub push_record : SourceRecord H → List (Group H) → List (Group H)
  unfolding same_group
  push_record r [] = (r, []) ∷ []
  push_record r ((first, others) ∷ groups) = elim (same_group first r) [
    | true ↦ (first, others ++ r ∷ []) ∷ groups
    | false ↦ (first, others) ∷ push_record r groups
  ]

  -- The loop of `grouped`.
  unfoldable pub group_all : List (SourceRecord H) → List (Group H) → List (Group H)
  unfolding is_grouped push_record
  group_all [] groups = groups
  group_all (r ∷ rest) groups =
      group_all rest (if is_grouped r then push_record r groups else groups)

  unfoldable pub grouped : LocalStore H → List (Group H)
  unfolding records group_all
  grouped s = group_all (records s) []

  unfoldable pub local_views : LocalStore H → List (LocalView H)
  unfolding grouped view_of_group
  local_views s = map view_of_group (grouped s)
