-- ===== src/Remote/Conflict.antt =====
-- Which errors `commit_catalog` of src/remote.rs returns.
use agent_transcript.Prelude.{ℕ, zero, suc, ◌≡◌, ◌⊎◌, inl, inr, false, ◌==◌, arith, ◌∙◌}
use agent_transcript.Harness.{Harness}
use agent_transcript.Errors.{Error, Result, err}
use agent_transcript.Catalog.{Catalog, is_nil}
use agent_transcript.Bucket.{Bucket}
use agent_transcript.Remote.{
  Codec, Outcome, committed, refused, failed, attempt, conclude, commit_loop, commit_catalog,
}
use agent_transcript.Remote.Attempt.{commit_catalog_loop}

module _ {S P B E H : Type 0} ⦃h : Harness H⦄ (bucket : Bucket S B E) (codec : Codec S P B H) where
  conclude-eq-err :
      (left : ℕ) (s' : S) (again : Result (Catalog H) × S) (outcome : Outcome H) (e : Error)
      → (conclude bucket codec left s' again outcome).0 ≡ err e
      → (outcome ≡ failed e) ⊎ (outcome ≡ refused e) ⊎ ((again.0 ≡ err e) × ((left == 0) ≡ false))
  unfolding conclude
  conclude-eq-err left s' again (committed m) e same = absurd (cc)
  conclude-eq-err left s' again (failed f) e same = inl (cc)
  conclude-eq-err left s' again (refused f) e same = ground arith

  -- Every error of the loop, with at least one round to go, is the error of one of its rounds.
  commit_loop-eq-err :
      (left : ℕ) (incoming : Catalog H) (s : S) (e : Error)
      → (commit_loop bucket codec (suc left) incoming s).0 ≡ err e
      → (t : S) × (((attempt bucket codec incoming t).0 ≡ failed e)
          ⊎ ((attempt bucket codec incoming t).0 ≡ refused e))
  unfolding commit_loop
  commit_loop-eq-err zero incoming s e same =
      let (outcome, s') = attempt bucket codec incoming s in
      elim (conclude-eq-err 0 s' (commit_loop bucket codec 0 incoming s') outcome e same) [
        | inl fails ↦ (s, inl fails)
        | inr (inl stops) ↦ (s, inr stops)
        | inr (inr (again, more)) ↦ absurd (ground arith)
      ]
  commit_loop-eq-err (suc left) incoming s e same =
      let (outcome, s') = attempt bucket codec incoming s in
      elim (conclude-eq-err (suc left) s' (commit_loop bucket codec (suc left) incoming s') outcome
        e same) [
          | inl fails ↦ (s, inl fails)
          | inr (inl stops) ↦ (s, inr stops)
          | inr (inr (again, more)) ↦ commit_loop-eq-err left incoming s' e again
        ]

  -- With a session to commit, every error that `commit_catalog` returns is the error of one of its
  -- attempts: the report behind the loop, of five conflicts, is never reached, and a fifth conflict
  -- is returned as the error of the write.
  pub commit_catalog-eq-err :
      (incoming : Catalog H) (s : S) (e : Error)
      → is_nil incoming.sessions ≡ false
      → (commit_catalog bucket codec incoming s).0 ≡ err e
      → (t : S) × (((attempt bucket codec incoming t).0 ≡ failed e)
          ⊎ ((attempt bucket codec incoming t).0 ≡ refused e))
  commit_catalog-eq-err incoming s e some_session same =
      commit_loop-eq-err 4 incoming s e
        (commit_catalog_loop bucket codec incoming s some_session ∙ same)
