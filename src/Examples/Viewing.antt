-- ===== src/Examples/Viewing.antt =====
-- What a reader sees of a catalog and of two local copies.
use agent_transcript.Prelude.{ℕ, bytes_eq, codes, ◌≡◌, refl, none, List, [], ◌∷◌}
use agent_transcript.Errors.{ok}
use agent_transcript.Catalog.{Catalog, validate}
use agent_transcript.Catalog.Prune.{prune_to_current}
use agent_transcript.Merge.{MergedView}
use agent_transcript.Sessions.{merged}
use agent_transcript.Sessions.Views.{merged-prune_to_current, merged-valid}
use agent_transcript.Sessions.Locals.{KeptCopy, choose_local-KeptCopy}
use agent_transcript.Examples.{
  numbered, repo, old, new, twin, stored, session, catalog_of, local_copy,
}

abbrev three : Catalog ℕ
three = catalog_of (session (codes "s1") (stored old ∷ stored new ∷ stored twin ∷ []) ∷ [])

three_valid : validate three ≡ ok tt
unfolding validate bytes_eq
three_valid = refl

merged-prune_to_current_example :
    merged repo none (local_copy (codes "s1") new ∷ []) (prune_to_current three)
    ≡ merged repo none (local_copy (codes "s1") new ∷ []) three
merged-prune_to_current_example =
    merged-prune_to_current repo none (local_copy (codes "s1") new ∷ []) three

merged-valid_example :
    (views : List (MergedView ℕ)) × (merged repo none (local_copy (codes "s1") new ∷ []) three
      ≡ ok views)
merged-valid_example = merged-valid repo none (local_copy (codes "s1") new ∷ []) three three_valid

choose_local-KeptCopy_example :
    KeptCopy
      (local_copy (codes "s1") old)
      (local_copy (codes "s1") new ∷ local_copy (codes "s1") twin ∷ [])
choose_local-KeptCopy_example =
    choose_local-KeptCopy (local_copy (codes "s1") old)
      (local_copy (codes "s1") new ∷ local_copy (codes "s1") twin ∷ []) refl
