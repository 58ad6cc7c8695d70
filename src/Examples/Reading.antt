-- ===== src/Examples/Reading.antt =====
-- References to ranges of a session, and the search for it.
use agent_transcript.Prelude.{
  ℕ, Bytes, codes, bytes_eq, starts_with, ◌≡◌, refl, arith, none, some, List, [], ◌∷◌, ◌++◌,
  keep_if,
}
use agent_transcript.Errors.{ok}
use agent_transcript.Fragment.{SpanReq, parse_ref, display, format_span}
use agent_transcript.Fragment.RoundTrip.{IsPrintable, parse_ref-display}
use agent_transcript.Fragment.Resolve.{Selects, format_span-Selects}
use agent_transcript.Read.{chunk_ranges}
use agent_transcript.Read.Chunks.{Covers, chunk_ranges-Covers}
use agent_transcript.Merge.{MergedView}
use agent_transcript.Freshness.{local}
use agent_transcript.Sessions.{unique_match, id_matches}
use agent_transcript.Sessions.Find.{Finds, find_session-Finds}
use agent_transcript.Examples.{codex, some_info}

abbrev five_on : SpanReq
five_on = record { start = some 5; end = none }

five_on-IsPrintable : IsPrintable five_on
five_on-IsPrintable = record {
  start_fits = ground arith;
  end_fits = tt;
  has_bound = λ e _. absurd (cc);
}

parse_ref-display_example : parse_ref (codes "abc" ++ display five_on) ≡ (codes "abc", some five_on)
parse_ref-display_example = parse_ref-display (codes "abc") five_on refl five_on-IsPrintable

format_span-Selects_example : Selects (codes "abc" ++ format_span (4, 12)) (codes "abc") 20 4 12
format_span-Selects_example =
    format_span-Selects (codes "abc") 20 4 12 refl (omega arith) (omega arith) (ground arith)

chunk_ranges-Covers_example :
    Covers (3 ∷ 9 ∷ 2 ∷ 2 ∷ []) 7 5 0 (chunk_ranges (3 ∷ 9 ∷ 2 ∷ 2 ∷ []) 7 5)
chunk_ranges-Covers_example = chunk_ranges-Covers (3 ∷ 9 ∷ 2 ∷ 2 ∷ []) 7 5

abbrev listed : Bytes → MergedView ℕ
listed id = record {
  harness = codex;
  session_id = id;
  pick = local;
  info = some_info;
  sort_at = 1;
  object_key = none;
  content_hash = codes "aaaa";
  local_source = some (codes "file");
  local_fingerprint = some (codes "print");
}

abbrev two_sessions : List (MergedView ℕ)
two_sessions = listed (codes "abc") ∷ listed (codes "xyz") ∷ []

only_abc : keep_if (id_matches (codes "abc")) two_sessions ≡ listed (codes "abc") ∷ []
unfolding bytes_eq
only_abc = refl

unnamed : unique_match two_sessions (codes "abc" ++ format_span (4, 12)) ≡ ok none
unfolding unique_match bytes_eq starts_with format_span
unnamed = refl

find_session-Finds_example :
    Finds two_sessions
      (codes "abc" ++ format_span (4, 12))
      (listed (codes "abc"))
      (codes "abc")
      20
      4
      12
find_session-Finds_example =
    find_session-Finds two_sessions (listed (codes "abc")) (codes "abc") 20 4 12 only_abc unnamed
      refl (omega arith) (omega arith) (ground arith)
