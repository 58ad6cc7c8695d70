-- ===== src/Examples/Archive.antt =====
-- Two catalogs that hold different revisions of one session.
use agent_transcript.Prelude.{
  ℕ, bytes_eq, bytes_le, sort_by, codes, ◌≡◌, ◌≤◌, refl, arith, true, ◌||◌, [], ◌∷◌, any, count,
}
use agent_transcript.Errors.{ok}
use agent_transcript.Catalog.{Catalog, merge_catalogs, validate}
use agent_transcript.Catalog.Union.{holds, merge_catalogs-holds}
use agent_transcript.Catalog.Keys.{is_record, merge_catalogs_unique}
use agent_transcript.Catalog.Valid.{merge_catalogs-valid}
use agent_transcript.Catalog.Total.{agree_with, merge_catalogs-ok}
use agent_transcript.Catalog.Prune.{prune_to_current}
use agent_transcript.Catalog.Prune.Kept.{prune_to_current-valid}
use agent_transcript.Examples.{numbered, codex, old, new, stored, session, catalog_of}

abbrev base : Catalog ℕ
base = catalog_of (session (codes "s1") (stored old ∷ []) ∷ [])

abbrev incoming : Catalog ℕ
incoming = catalog_of (session (codes "s1") (stored new ∷ []) ∷ [])

abbrev merged : Catalog ℕ
merged = catalog_of (session (codes "s1") (stored old ∷ stored new ∷ []) ∷ [])

merging : merge_catalogs base incoming ≡ ok merged
unfolding merge_catalogs bytes_eq sort_by bytes_le
merging = refl

base_valid : validate base ≡ ok tt
unfolding validate bytes_eq
base_valid = refl

incoming_valid : validate incoming ≡ ok tt
unfolding validate bytes_eq
incoming_valid = refl

merge_catalogs-holds_example : any (holds codex (codes "s1") (codes "bbbb")) merged.sessions ≡ (
    any (holds codex (codes "s1") (codes "bbbb")) base.sessions
    || any (holds codex (codes "s1") (codes "bbbb")) incoming.sessions)
merge_catalogs-holds_example =
    merge_catalogs-holds codex (codes "s1") (codes "bbbb") base incoming merged merging

one_record : count (is_record codex (codes "s1")) base.sessions ≤ 1
unfolding bytes_eq
one_record = ground arith

merge_catalogs_unique_example : count (is_record codex (codes "s1")) merged.sessions ≤ 1
merge_catalogs_unique_example =
    merge_catalogs_unique codex (codes "s1") base incoming merged merging one_record

merge_catalogs-valid_example : validate merged ≡ ok tt
merge_catalogs-valid_example =
    merge_catalogs-valid base incoming merged merging base_valid incoming_valid

prune_to_current-valid_example : validate (prune_to_current base) ≡ ok tt
prune_to_current-valid_example = prune_to_current-valid base base_valid

agreeing : agree_with base.sessions incoming.sessions ≡ true
unfolding bytes_eq
agreeing = refl

merge_catalogs-ok_example : (union : Catalog ℕ) × (merge_catalogs base incoming ≡ ok union)
merge_catalogs-ok_example = merge_catalogs-ok base incoming base_valid incoming_valid agreeing refl
