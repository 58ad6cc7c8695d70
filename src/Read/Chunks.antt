-- ===== src/Read/Chunks.antt =====
-- The ranges of `chunk_ranges` of src/read.rs.
use agent_transcript.Prelude.{
  ℕ, zero, suc, ◌+◌, ◌≤◌, ◌<◌, ◌≡◌, refl, ap, subst, ◌⊎◌, inl, inr, arith, ◌&&◌, List, [], ◌∷◌, ltb,
  length, Bool-cases,
}
use agent_transcript.Read.{chunk_loop, chunk_ranges}

-- The size of the first `n` messages.
abbrev pub sum_first : ℕ → List ℕ → ℕ
sum_first zero sizes = 0
sum_first (suc n) [] = 0
sum_first (suc n) (size ∷ sizes) = size + sum_first n sizes

-- The ranges cover the messages from `lo` on, counted from `start`: each is not empty and begins where
-- the one before ends, the last one ends with the last message, and each holds a single message
-- or is within the budget.
abbrev pub Covers : (sizes : List ℕ) → (start budget lo : ℕ) → List (ℕ × ℕ) → Type 0
Covers sizes start budget lo [] = lo ≡ length sizes
Covers sizes start budget lo (range ∷ ranges) =
    (hi : ℕ) × (range.0 ≡ start + lo)
    × (range.1 ≡ start + hi)
    × (lo < hi)
    × ((hi ≡ lo + 1) ⊎ (sum_first hi sizes ≤ sum_first lo sizes + budget))
    × Covers sizes start budget hi ranges

module _ (sizes : List ℕ) (start budget : ℕ) where
  -- What holds of the variables of the loop before a round.
  record At (index lo acc : ℕ) (rest : List ℕ) : Type 0 where
    ordered : lo ≤ index
    size : sum_first index sizes ≡ sum_first lo sizes + acc
    small : (index ≤ lo + 1) ⊎ (acc ≤ budget)
    tail : (k : ℕ) → sum_first (index + k) sizes ≡ sum_first index sizes + sum_first k rest
    left_over : index + length rest ≡ length sizes

  next_size :
      (index lo acc size : ℕ) (rest : List ℕ)
      → At index lo acc (size ∷ rest)
      → sum_first (index + 1) sizes ≡ sum_first index sizes + size
  next_size index lo acc size rest a = omega (arith, a.tail 1)

  next_tail :
      (index lo acc size k : ℕ) (rest : List ℕ)
      → At index lo acc (size ∷ rest)
      → sum_first (index + 1 + k) sizes ≡ sum_first (index + 1) sizes + sum_first k rest
  next_tail index lo acc size k rest a =
      subst (λ m. sum_first m sizes ≡ sum_first (index + 1) sizes + sum_first k rest)
        (shift index k) (omega (arith, a.tail (suc k), next_size index lo acc size rest a))
    where
      shift : (i k : ℕ) → i + suc k ≡ i + 1 + k
      shift i k = omega arith

  all_size :
      (index lo acc : ℕ)
      → At index lo acc []
      → sum_first (length sizes) sizes ≡ sum_first lo sizes + acc
  all_size index lo acc a =
      subst (λ m. sum_first m sizes ≡ sum_first lo sizes + acc) (omega (arith, a.left_over)) a.size

  open_chunk :
      (index lo acc size : ℕ) (rest : List ℕ)
      → At index lo acc (size ∷ rest)
      → (acc + size ≤ budget) ⊎ (index ≤ lo)
      → At (index + 1) lo (acc + size) rest
  open_chunk index lo acc size rest a fits = record {
    ordered = omega (arith, a.ordered);
    size = omega (arith, next_size index lo acc size rest a, a.size);
    small = ground (arith, a.ordered);
    tail = λ k. next_tail index lo acc size k rest a;
    left_over = omega (arith, a.left_over);
  }

  new_chunk :
      (index lo acc size : ℕ) (rest : List ℕ)
      → At index lo acc (size ∷ rest)
      → At (index + 1) index size rest
  new_chunk index lo acc size rest a = record {
    ordered = omega arith;
    size = next_size index lo acc size rest a;
    small = inl (omega arith);
    tail = λ k. next_tail index lo acc size k rest a;
    left_over = omega (arith, a.left_over);
  }

  chunk_loop-Covers :
      (index lo acc : ℕ) (rest : List ℕ)
      → At index lo acc rest
      → Covers sizes start budget lo (chunk_loop start budget (length sizes) index lo acc rest)
  unfolding chunk_loop
  chunk_loop-Covers index lo acc [] a = elim (Bool-cases (ltb lo (length sizes))) [
    | inl more ↦ rw more (
      length sizes,
      refl,
      refl,
      ground arith,
      ground (arith, all_size index lo acc a, a.small, a.left_over),
      refl,
    )
    | inr done ↦ rw done (ground (arith, a.ordered, a.left_over))
  ]
  chunk_loop-Covers index lo acc (size ∷ rest) a =
      elim (Bool-cases (ltb lo index && ltb budget (acc + size))) [
        | inl full ↦ rw full (
          index,
          refl,
          refl,
          ground arith,
          ground (arith, a.size, a.small, a.ordered),
          chunk_loop-Covers (index + 1) index size rest (new_chunk index lo acc size rest a),
        )
        | inr room ↦ rw room (
            chunk_loop-Covers (index + 1) lo (acc + size) rest
              (open_chunk index lo acc size rest a (ground arith)))
      ]

-- The ranges that `chunk_ranges` proposes for a session cover all its messages, one after the other
-- and without a gap, and each is a single message or is within the budget.
pub chunk_ranges-Covers :
    (sizes : List ℕ) (start budget : ℕ)
    → Covers sizes start budget 0 (chunk_ranges sizes start budget)
unfolding chunk_ranges
chunk_ranges-Covers sizes start budget = chunk_loop-Covers sizes start budget 0 0 0 sizes (record {
  ordered = omega arith;
  size = refl;
  small = inl (omega arith);
  tail = λ k. first k;
  left_over = omega arith;
})
  where
    first : (k : ℕ) → sum_first (0 + k) sizes ≡ sum_first 0 sizes + sum_first k sizes
    first k = omega (arith, ap (λ m. sum_first m sizes) (zero_add k))
      where
        zero_add : (n : ℕ) → 0 + n ≡ n
        zero_add n = omega arith
