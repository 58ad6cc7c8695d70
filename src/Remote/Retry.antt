-- ===== src/Remote/Retry.antt =====
-- The retries of `commit_catalog` of src/remote.rs: how its result comes about.
use agent_transcript.Prelude.{
  ℕ, zero, suc, ◌<◌, ◌≡◌, ◌↔◌, ◌⊎◌, inl, inr, refl, ap, sym, ◌∙◌, subst, false, true, not, ◌&&◌,
  ◌==◌, arith, Bool-cases,
}
use agent_transcript.Harness.{Harness}
use agent_transcript.Errors.{Error, Result, ok, err, precondition}
use agent_transcript.Catalog.{Catalog, is_nil}
use agent_transcript.Bucket.{Bucket}
use agent_transcript.Remote.{
  Codec, Outcome, committed, refused, failed, attempt, conclude, commit_loop, commit_catalog,
  is_precondition,
}

is_precondition_sound : (e : Error) → is_precondition e ≡ true → e ≡ precondition
unfolding is_precondition
is_precondition_sound e h = ground arith

module _ {S P B E H : Type 0} ⦃h : Harness H⦄ (bucket : Bucket S B E) (codec : Codec S P B H)
    (incoming : Catalog H) where
  -- `n` attempts in a row, from the state `s` to the state `t`, whose writes the bucket refused because
  -- of their condition.
  abbrev pub Retries : ℕ → S → S → Type 0
  Retries zero s t = s ≡ t
  Retries (suc n) s t =
      ((attempt bucket codec incoming s).0 ≡ refused precondition)
      × Retries n (attempt bucket codec incoming s).1 t

  -- Fewer than `left` such attempts, and one that commits.
  pub record Commits (left : ℕ) (s : S) (merged : Catalog H) (u : S) : Type 0 where
    pub retries : ℕ
    pub few : retries < left
    pub start : S
    pub refusals : Retries retries s start
    pub outcome : (attempt bucket codec incoming start).0 ≡ committed merged
    pub final : (attempt bucket codec incoming start).1 ≡ u

  conclude_retry :
      (left : ℕ) (s' : S) (again : Result (Catalog H) × S) (f : Error)
      → (is_precondition f && not (left == 0)) ≡ true
      → conclude bucket codec left s' again (refused f) ≡ again
  unfolding conclude
  conclude_retry left s' again f e = rw (conclude, e) refl

  conclude_stop :
      (left : ℕ) (s' : S) (again : Result (Catalog H) × S) (f : Error)
      → (is_precondition f && not (left == 0)) ≡ false
      → conclude bucket codec left s' again (refused f) ≡ (err f, s')
  unfolding conclude
  conclude_stop left s' again f e = rw (conclude, e) refl

  conclude-ok :
      (left : ℕ) (s' : S) (again : Result (Catalog H) × S) (outcome : Outcome H)
      (merged : Catalog H) (u : S)
      → conclude bucket codec left s' again outcome ≡ (ok merged, u)
      → ((outcome ≡ committed merged) × (s' ≡ u))
        ⊎ ((outcome ≡ refused precondition) × (again ≡ (ok merged, u)))
  unfolding conclude
  conclude-ok left s' again (committed m) merged u e = inl (cc, ap (λ p. p.1) e)
  conclude-ok left s' again (failed f) merged u e =
      let bad : err f ≡ ok merged = ap (λ p. p.0) e in absurd (cc)
  conclude-ok left s' again (refused f) merged u e =
      elim (Bool-cases (is_precondition f && not (left == 0))) [
        | inl retry ↦ inr (
          ap (λ x. refused x) (is_precondition_sound f (ground arith)),
          sym (conclude_retry left s' again f retry) ∙ e,
        )
        | inr stop ↦
            let bad : err f ≡ ok merged =
              ap (λ p. p.0) (sym (conclude_stop left s' again f stop) ∙ e) in
            absurd (cc)
      ]

  commit_loop-Commits :
      (left : ℕ) (s : S) (merged : Catalog H) (u : S)
      → commit_loop bucket codec left incoming s ≡ (ok merged, u)
      → Commits left s merged u
  unfolding commit_loop
  commit_loop-Commits zero s merged u e = let bad = ap (λ p. p.0) e in absurd (cc)
  commit_loop-Commits (suc left) s merged u e =
      let (outcome, s') = attempt bucket codec incoming s in
      elim (conclude-ok left s' (commit_loop bucket codec left incoming s') outcome merged u e) [
        | inl (now, last) ↦ record {
          retries = 0;
          few = omega arith;
          start = s;
          refusals = refl;
          outcome = now;
          final = last;
        }
        | inr (conflict, again) ↦
            let k = commit_loop-Commits left s' merged u again in
            record {
              retries = suc k.retries;
              few = omega (arith, k.few);
              start = k.start;
              refusals = (conflict, k.refusals);
              outcome = k.outcome;
              final = k.final;
            }
      ]

  Commits-commit_loop :
      (n left : ℕ) (s t : S) (merged : Catalog H)
      → n < left
      → Retries n s t
      → (attempt bucket codec incoming t).0 ≡ committed merged
      → commit_loop bucket codec left incoming s ≡ (ok merged, (attempt bucket codec incoming t).1)
  unfolding commit_loop conclude is_precondition
  Commits-commit_loop n zero s t merged few retried done = absurd (omega (arith, few))
  Commits-commit_loop zero (suc left) s t merged few same done =
      subst
        (λ x.
          commit_loop bucket codec (suc left) incoming s
          ≡ (ok merged, (attempt bucket codec incoming x).1))
        same
        (rw
          (
            commit_loop,
            subst (λ x. (attempt bucket codec incoming x).0 ≡ committed merged) (sym same) done,
          )
          refl)
  Commits-commit_loop (suc n) (suc left) s t merged few (conflict, retried) done =
      let again =
        Commits-commit_loop n left (attempt bucket codec incoming s).1 t merged (omega (arith, few))
          retried done in
      ap
        (conclude bucket codec left (attempt bucket codec incoming s).1
          (commit_loop bucket codec left incoming (attempt bucket codec incoming s).1))
        conflict
      ∙ conclude_retry left (attempt bucket codec incoming s).1
          (commit_loop bucket codec left incoming (attempt bucket codec incoming s).1) precondition
          (ground (arith, few))
      ∙ again

  -- With a session to commit, `commit_catalog` returns a merged catalog in a state exactly if an attempt
  -- commits that catalog and ends in that state, and at most four attempts were made before it,
  -- one after the other, each of which the bucket refused because of the condition of its write.
  pub commit_catalog_iff :
      (s : S) (merged : Catalog H) (u : S)
      → is_nil incoming.sessions ≡ false
      → (commit_catalog bucket codec incoming s ≡ (ok merged, u)) ↔ Commits 5 s merged u
  unfolding commit_catalog
  commit_catalog_iff s merged u some_session = (
    λ done. commit_loop-Commits 5 s merged u ((rw some_session refl) ∙ done),
    λ k.
        (rw some_session
          (Commits-commit_loop k.retries 5 s k.start merged k.few k.refusals k.outcome))
        ∙ ap (λ (x : S). (ok merged, x)) k.final,
  )
