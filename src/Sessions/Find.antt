-- ===== src/Sessions/Find.antt =====
-- `find_session` of src/sessions.rs: how a query finds a session.
use agent_transcript.Prelude.{
  ℕ, ◌≤◌, ◌<◌, Bytes, ◌≡◌, ◌↔◌, refl, ap, ◌∙◌, ◌⊎◌, inl, inr, arith, false, Option, none, some,
  List, [], ◌∷◌, ◌++◌, keep_if,
}
use agent_transcript.Errors.{
  Error, msg, Result, ok, id_ambiguous, prefix_ambiguous, title_ambiguous,
}
use agent_transcript.Fragment.{
  SpanReq, span, resolve, parse_ref, format_span, is_empty, usize_bound,
}
use agent_transcript.Fragment.Resolve.{format_span-Selects}
use agent_transcript.Merge.{MergedView}
use agent_transcript.Sessions.{
  id_matches, prefix_matches, title_matches, search_level, unique_match, find_source, find_session,
}

module _ {H : Type 0} where
  search_level_iff :
      (e : Error) (matches : List (MergedView H)) (next : Result (Option (MergedView H)))
      (v : MergedView H)
      → (search_level e matches next ≡ ok (some v))
        ↔ ((matches ≡ v ∷ []) ⊎ ((matches ≡ []) × (next ≡ ok (some v))))
  unfolding search_level
  search_level_iff e [] next v =
      (λ h. inr (refl, h), λ h. elim h [ inl a ↦ absurd (cc) | inr b ↦ b.1 ])
  search_level_iff e (x ∷ []) next v =
      (λ h. inl (cc), λ h. elim h [ inl a ↦ cc | inr b ↦ absurd (cc) ])
  search_level_iff e (x ∷ y ∷ rest) next v =
      (λ h. absurd (cc), λ h. elim h [ inl a ↦ absurd (cc) | inr b ↦ absurd (cc) ])

  -- `unique_match` finds a session exactly if it is the only one with that id; or, with no session of
  -- that id, the only one whose id begins with the text; or, with none of these, the only one of
  -- that title.
  pub unique_match_iff :
      (merged : List (MergedView H)) (src : Bytes) (v : MergedView H)
      → (unique_match merged src ≡ ok (some v)) ↔ (
          (keep_if (id_matches src) merged ≡ v ∷ [])
          ⊎ ((keep_if (id_matches src) merged ≡ [])
              × ((keep_if (prefix_matches src) merged ≡ v ∷ [])
                  ⊎ ((keep_if (prefix_matches src) merged ≡ [])
                      × (keep_if (title_matches src) merged ≡ v ∷ [])))))
  unfolding unique_match
  unique_match_iff merged src v = ground (
    arith,
    search_level_iff (msg (id_ambiguous src)) (keep_if (id_matches src) merged)
        (search_level (msg (prefix_ambiguous src)) (keep_if (prefix_matches src) merged)
          (search_level (msg (title_ambiguous src)) (keep_if (title_matches src) merged) (ok none)))
        v,
    search_level_iff (msg (prefix_ambiguous src)) (keep_if (prefix_matches src) merged)
        (search_level (msg (title_ambiguous src)) (keep_if (title_matches src) merged) (ok none)) v,
    search_level_iff (msg (title_ambiguous src)) (keep_if (title_matches src) merged) (ok none) v,
  )

  find_source_found :
      (merged : List (MergedView H)) (v : MergedView H) (id : Bytes) (range : Option SpanReq)
      → unique_match merged id ≡ ok (some v)
      → find_source merged (id, range) ≡ ok (v, id, range)
  unfolding find_source
  find_source_found merged v id range e = rw (find_source, e) refl

  find_session_unnamed :
      (merged : List (MergedView H)) (query : Bytes)
      → unique_match merged query ≡ ok none
      → find_session merged query ≡ find_source merged (parse_ref query)
  unfolding find_session
  find_session_unnamed merged query e = rw (find_session, e) refl

  -- What it means that a query finds a session by its id and selects a range of its messages.
  pub record Finds (merged : List (MergedView H)) (query : Bytes) (v : MergedView H) (id : Bytes)
      (len first last : ℕ) : Type 0 where
    pub req : SpanReq
    pub found : find_session merged query ≡ ok (v, id, some req)
    pub resolved : resolve req len ≡ span first last

  -- A session whose id no other one has is found by its id with a printed range behind it, together with
  -- that range, unless the whole text names a session: for an id that is not empty and a range that
  -- is not empty and within the session, whose length `usize` holds.
  pub find_session-Finds :
      (merged : List (MergedView H)) (v : MergedView H) (id : Bytes) (len first last : ℕ)
      → keep_if (id_matches id) merged ≡ v ∷ []
      → unique_match merged (id ++ format_span (first, last)) ≡ ok none
      → is_empty id ≡ false
      → first < last
      → last ≤ len
      → len < usize_bound
      → Finds merged (id ++ format_span (first, last)) v id len first last
  find_session-Finds merged v id len first last only unnamed one h k fits =
      let s = format_span-Selects id len first last one h k fits in
      record {
        req = s.req;
        found =
            find_session_unnamed merged (id ++ format_span (first, last)) unnamed
            ∙ ap (find_source merged) s.parsed
            ∙ find_source_found merged v id (some s.req)
                ((unique_match_iff merged id v).1 (inl only));
        resolved = s.resolved;
      }
