-- ===== src/Examples/Snapshots.antt =====
-- Two snapshots of a session, and three revisions of it.
use agent_transcript.Prelude.{bytes_eq, ◌≡◌, refl, [], ◌∷◌}
use agent_transcript.Errors.{ok}
use agent_transcript.Freshness.{Current, choose_current, rank}
use agent_transcript.Freshness.Choice.{Choice, choose_current-Choice}
use agent_transcript.Catalog.Prune.{prune_revisions}
use agent_transcript.Catalog.Prune.Keeps.{SameCurrent, prune_revisions-SameCurrent}
use agent_transcript.Catalog.Prune.Kept.{Kept, prune_revisions-Kept}
use agent_transcript.Examples.{old, new, twin, stored}

choose_current-Choice_example :
    (c : Current) × (choose_current (old ∷ new ∷ twin ∷ []) ≡ ok c)
    × Choice (old ∷ new ∷ twin ∷ []) c
choose_current-Choice_example = choose_current-Choice old (new ∷ twin ∷ [])

prune_revisions-SameCurrent_example :
    SameCurrent
      (stored old ∷ stored new ∷ stored twin ∷ [])
      (prune_revisions (stored old ∷ stored new ∷ stored twin ∷ []))
prune_revisions-SameCurrent_example =
    prune_revisions-SameCurrent (stored old) (stored new ∷ stored twin ∷ [])

prune_revisions-Kept_example :
    Kept
      (stored old ∷ stored new ∷ stored twin ∷ [])
      (prune_revisions (stored old ∷ stored new ∷ stored twin ∷ []))
prune_revisions-Kept_example = prune_revisions-Kept (stored old) (stored new ∷ stored twin ∷ [])

three_revisions : choose_current (old ∷ new ∷ twin ∷ []) ≡ ok (Current.ambiguous 1)
unfolding choose_current rank bytes_eq
three_revisions = refl
