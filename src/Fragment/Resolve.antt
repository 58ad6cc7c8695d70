-- ===== src/Fragment/Resolve.antt =====
-- Which messages of a session a range request selects.
use agent_transcript.Prelude.{
  ℕ, ◌+◌, ◌-◌, ◌≤◌, ◌<◌, Bytes, ◌≡◌, ◌↔◌, refl, arith, true, false, ◌==◌, some, ◌++◌, Bool-cases,
  inl, inr,
}
use agent_transcript.Fragment.{
  SpanReq, usize_bound, is_empty, parse_ref, display, display_range, bound_text, is_single,
  format_span, span, given, resolve,
}
use agent_transcript.Fragment.RoundTrip.{parse_ref-display}

-- A request selects the half-open range from `first` to `last` exactly if these are its bounds, an
-- open one standing for the first or the last message, the range is not empty, and it ends within
-- the session.
pub resolve_iff :
    (req : SpanReq) (len first last : ℕ)
    → (resolve req len ≡ span first last) ↔ (
        (first + 1 ≡ given req.start 1)
        × (last ≡ given req.end len)
        × (first < last)
        × (last ≤ len))
unfolding resolve
resolve_iff req len first last = ground arith

abbrev request_of : ℕ → ℕ → SpanReq
request_of first last = record { start = some (first + 1); end = some last }

format_span-display :
    (first last : ℕ) → first < last → format_span (first, last) ≡ display (request_of first last)
unfolding format_span display display_range bound_text is_single
format_span-display first last h = elim (Bool-cases (last - first == 1)) [
  | inl one ↦ let same : (first + 1 == last) ≡ true = ground arith in rw (one, same) refl
  | inr more ↦ let other : (first + 1 == last) ≡ false = ground arith in rw (more, other) refl
]

-- What it means that a reference selects exactly one range of a session of `len` messages.
pub record Selects (reference source : Bytes) (len first last : ℕ) : Type 0 where
  pub req : SpanReq
  pub parsed : parse_ref reference ≡ (source, some req)
  pub resolved : resolve req len ≡ span first last

-- The reference that `format_span` prints for a range of a session, behind a source that is not empty,
-- is read back as that source and selects that range again, for sessions whose length `usize` holds.
pub format_span-Selects :
    (source : Bytes) (len first last : ℕ)
    → is_empty source ≡ false
    → first < last
    → last ≤ len
    → len < usize_bound
    → Selects (source ++ format_span (first, last)) source len first last
format_span-Selects source len first last one h k fits = record {
  req = request_of first last;
  parsed = rw (format_span-display first last h) (
      parse_ref-display source (request_of first last) one (record {
        start_fits = omega arith;
        end_fits = omega arith;
        has_bound = λ e _. absurd (cc);
      }));
  resolved = (resolve_iff (request_of first last) len first last).1 (ground arith);
}
