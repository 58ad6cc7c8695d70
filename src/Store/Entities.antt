-- ===== src/Store/Entities.antt =====
-- src/store.rs: `unescape`, that its loop ends.
use agent_transcript.Prelude.{
  ℕ, zero, suc, ◌+◌, ◌≤◌, ◌<◌, Bytes, none, some, [], ◌∷◌, ◌≡◌, ◌⊎◌, inl, inr, refl, arith, length,
  ◌==◌, Bool-cases,
}
use agent_transcript.Fragment.{split_once}
use agent_transcript.Store.Xml.{unescape_loop, unescape}

-- What stands behind the first mark is shorter than the text.
split_once-cases :
    (mark : ℕ) (text : Bytes)
    → (split_once mark text ≡ none)
      ⊎ ((before after : Bytes) × (split_once mark text ≡ some (before, after))
          × (length after < length text))
unfolding split_once
split_once-cases mark [] = inl refl
split_once-cases mark (c ∷ text) = elim (Bool-cases (c == mark)) [
  | inl e ↦ inr ([], text, rw e refl, omega arith)
  | inr e ↦ elim (split_once-cases mark text) [
    | inl n ↦ inl (rw (e, n) refl)
    | inr (before, after, p, shorter) ↦ inr (c ∷ before, after, rw (e, p) refl, omega arith)
  ]
]

unescape_loop-nil : (fuel : ℕ) → unescape_loop fuel [] ≡ []
unfolding unescape_loop split_once
unescape_loop-nil zero = refl
unescape_loop-nil (suc fuel) = refl

plus_suc : (m n : ℕ) → suc m + n ≡ suc (m + n)
plus_suc m n = omega arith

-- Fuel as long as the text is enough: with more of it the loop gives the same text.
unescape_loop_enough :
    (fuel more : ℕ) (text : Bytes)
    → length text ≤ fuel
    → unescape_loop (fuel + more) text ≡ unescape_loop fuel text
unfolding unescape_loop
unescape_loop_enough fuel more [] h =
    rw (unescape_loop-nil (fuel + more), unescape_loop-nil fuel) refl
unescape_loop_enough zero more (c ∷ text) h = ground arith
unescape_loop_enough (suc fuel) more (c ∷ text) h =
    let later = plus_suc fuel more in
    elim (split_once-cases b'&' (c ∷ text)) [
      | inl e ↦ rw (later, unescape_loop, e) refl
      | inr (before, tail, e, shorter) ↦ elim (split_once-cases b';' tail) [
        | inl d ↦ rw (later, unescape_loop, e, d) refl
        | inr (entity, after, d, less) ↦
            rw (later, unescape_loop, e, d, unescape_loop_enough fuel more after (omega arith)) refl
      ]
    ]

-- So `unescape` does not depend on the fuel that it gives its loop.
unescape_fuel : (more : ℕ) (text : Bytes) → unescape_loop (length text + more) text ≡ unescape text
unfolding unescape
unescape_fuel more text = unescape_loop_enough (length text) more text (omega arith)
