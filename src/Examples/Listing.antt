-- ===== src/Examples/Listing.antt =====
-- One local and one archived copy of a session.
use agent_transcript.Prelude.{ℕ, bytes_eq, codes, ◌≡◌, ◌≤◌, arith, ◌||◌, none, [], ◌∷◌, any, count}
use agent_transcript.Merge.{LocalView, RemoteView, select, matches_scope, in_scope}
use agent_transcript.Merge.Scope.{is_view, is_local_copy, is_remote_copy, select_complete}
use agent_transcript.Merge.Unique.{select_once}
use agent_transcript.Merge.Listing.{IsListing, select-IsListing}
use agent_transcript.Examples.{numbered, codex, repo, old, new, local_copy, remote_copy}

abbrev here : LocalView ℕ
here = local_copy (codes "s1") old

abbrev there : RemoteView ℕ
there = remote_copy (codes "s1") new

abbrev other : RemoteView ℕ
other = remote_copy (codes "s2") old

select_complete_example :
    any (is_view codex (codes "s1")) (select repo none (here ∷ []) (there ∷ other ∷ [])) ≡ (
      any (is_local_copy codex (codes "s1") repo none) (here ∷ [])
      || any (is_remote_copy codex (codes "s1") repo none) (there ∷ other ∷ []))
select_complete_example =
    select_complete codex (codes "s1") repo none (here ∷ []) (there ∷ other ∷ [])

one_local : count (is_local_copy codex (codes "s1") repo none) (here ∷ []) ≤ 1
unfolding in_scope bytes_eq
one_local = ground arith

one_remote : count (is_remote_copy codex (codes "s1") repo none) (there ∷ other ∷ []) ≤ 1
unfolding matches_scope bytes_eq
one_remote = ground arith

select_once_example :
    count (is_view codex (codes "s1")) (select repo none (here ∷ []) (there ∷ other ∷ [])) ≤ 1
select_once_example =
    select_once codex (codes "s1") repo none (here ∷ []) (there ∷ other ∷ []) one_local one_remote

select-IsListing_example : IsListing (select repo none (here ∷ []) (there ∷ other ∷ []))
select-IsListing_example = select-IsListing repo none (here ∷ []) (there ∷ other ∷ [])
