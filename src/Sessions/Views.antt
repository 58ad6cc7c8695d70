-- ===== src/Sessions/Views.antt =====
-- `merged` of src/sessions.rs: what readers see of a catalog.
use agent_transcript.Prelude.{
  Bytes, ◌≡◌, refl, arith, true, false, sym, ap, ◌∙◌, Option, some, List, [], ◌∷◌, map, all,
  get_elem?, subst,
}
use agent_transcript.Harness.{Harness}
use agent_transcript.Errors.{ok}
use agent_transcript.Freshness.{Current, choose_current, display_of, is_ambiguous}
use agent_transcript.Catalog.{Revision, SessionRecord, Catalog, is_nil, validate}
use agent_transcript.Catalog.Valid.{is_valid, validate_iff}
use agent_transcript.Catalog.Prune.{prune_session, prune_revisions, prune_to_current, freshness_of}
use agent_transcript.Catalog.Prune.Keeps.{SameCurrent, prune_revisions-SameCurrent}
use agent_transcript.Catalog.Prune.Kept.{prune_revisions-is_nil}
use agent_transcript.Merge.{LocalView, MergedView, RemoteView, select}
use agent_transcript.Sessions.{remote_view, view_at, remote_view_of, remote_views, merged}

module _ {H : Type 0} ⦃h : Harness H⦄ where
  remote_view_of_shown :
      (s : SessionRecord H) (c : Current) (here : Revision)
      → is_nil s.revisions ≡ false
      → choose_current (map freshness_of s.revisions) ≡ ok c
      → get_elem? s.revisions (display_of c) ≡ some here
      → remote_view_of s ≡ ok (remote_view s here (is_ambiguous c))
  unfolding remote_view_of
  remote_view_of_shown s c here one chosen shown =
      let view : view_at s c ≡ ok (remote_view s here (is_ambiguous c)) =
        rw (view_at, shown) refl in
      rw (one, chosen) view

  remote_view_of-SameCurrent :
      (s : SessionRecord H) (after : List Revision)
      → is_nil s.revisions ≡ false
      → is_nil after ≡ false
      → SameCurrent s.revisions after
      → remote_view_of (record s { revisions = after }) ≡ remote_view_of s
  remote_view_of-SameCurrent s after one left same =
      remote_view_of_shown (record s { revisions = after }) same.current_after same.here left
        same.chosen_after same.shown_after
      ∙ unfold remote_view in
        ap (λ b. ok (remote_view s same.here b)) same.ambiguity
        ∙ sym (
            remote_view_of_shown s same.current_before same.here one same.chosen_before
              same.shown_before)

  remote_view_of-prune_session :
      (s : SessionRecord H) (revisions : List Revision)
      → s.revisions ≡ revisions
      → remote_view_of (prune_session s) ≡ remote_view_of s
  unfolding prune_session remote_view_of
  remote_view_of-prune_session s [] e =
      let one : is_nil s.revisions ≡ true = ap is_nil e in
      let left : is_nil (prune_revisions s.revisions) ≡ true =
        prune_revisions-is_nil s.revisions ∙ one in
      rw (one, left) refl
  remote_view_of-prune_session s (r ∷ rs) e =
      remote_view_of-SameCurrent s (prune_revisions s.revisions) (ap is_nil e)
        (prune_revisions-is_nil s.revisions ∙ ap is_nil e)
        (subst (λ l. SameCurrent l (prune_revisions l)) (sym e) (prune_revisions-SameCurrent r rs))

  remote_views-prune_session :
      (sessions : List (SessionRecord H))
      → remote_views (map prune_session sessions) ≡ remote_views sessions
  unfolding remote_views
  remote_views-prune_session [] = refl
  remote_views-prune_session (s ∷ sessions) =
      rw (remote_view_of-prune_session s s.revisions refl, remote_views-prune_session sessions) refl

  -- Pruning a catalog changes nothing in what `merged` lists: for every repository, every choice of
  -- harness and all local sessions it gives the same list, or the same error.
  pub merged-prune_to_current :
      (repo_key : Bytes) (from : Option H) (locals : List (LocalView H)) (c : Catalog H)
      → merged repo_key from locals (prune_to_current c) ≡ merged repo_key from locals c
  unfolding merged prune_to_current
  merged-prune_to_current repo_key from locals c = rw (remote_views-prune_session c.sessions) refl

  remote_view_of-valid :
      (s : SessionRecord H) (revisions : List Revision)
      → s.revisions ≡ revisions
      → is_nil revisions ≡ false
      → (v : RemoteView H) × (remote_view_of s ≡ ok v)
  remote_view_of-valid s [] e p = absurd (cc)
  remote_view_of-valid s (r ∷ rs) e p =
      let same = prune_revisions-SameCurrent r rs in
      let shown : get_elem? s.revisions (display_of same.current_before) ≡ some same.here =
        ap (λ l. get_elem? l (display_of same.current_before)) e ∙ same.shown_before in
      let chosen : choose_current (map freshness_of s.revisions) ≡ ok same.current_before =
        ap (λ l. choose_current (map freshness_of l)) e ∙ same.chosen_before in
      let one : is_nil s.revisions ≡ false = ap is_nil e in
      (
        remote_view s same.here (is_ambiguous same.current_before),
        remote_view_of_shown s same.current_before same.here one chosen shown,
      )

  remote_views-valid :
      (sessions : List (SessionRecord H))
      → all is_valid sessions ≡ true
      → (views : List (RemoteView H)) × (remote_views sessions ≡ ok views)
  unfolding remote_views is_valid
  remote_views-valid [] p = ([], refl)
  remote_views-valid (s ∷ sessions) p =
      let (v, one) = remote_view_of-valid s s.revisions refl (ground arith) in
      let (views, more) = remote_views-valid sessions (ground arith) in
      (v ∷ views, rw (one, more) refl)

  -- A catalog that `validate` passes can always be listed.
  pub merged-valid :
      (repo_key : Bytes) (from : Option H) (locals : List (LocalView H)) (c : Catalog H)
      → validate c ≡ ok tt
      → (views : List (MergedView H)) × (merged repo_key from locals c ≡ ok views)
  unfolding merged
  merged-valid repo_key from locals c p =
      let (views, e) = remote_views-valid c.sessions ((validate_iff c).0 p).1 in
      (select repo_key from locals views, rw e refl)
