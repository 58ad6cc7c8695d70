-- ===== src/Read.antt =====
-- src/read.rs: the ranges into which a session is split that is too long to be read at once.
pub mod Chunks
use agent_transcript.Prelude.{
  ℕ, zero, suc, ◌+◌, Bool, ◌&&◌, List, [], ◌∷◌, ltb, length, if◌then◌else◌,
}

-- `READ_BUDGET`
abbrev read_budget : ℕ
read_budget = 100000

module _ (start budget total : ℕ) where
  -- The loop of `chunk_ranges` at `index`, with the chunk that is open since `lo` and its size so far;
  -- the ranges that it pushes come first in the result. `total` is the number of all sizes.
  chunk_loop : (index lo acc : ℕ) → List ℕ → List (ℕ × ℕ)
  chunk_loop index lo acc [] = if ltb lo total then (start + lo, start + total) ∷ [] else []
  chunk_loop index lo acc (size ∷ sizes) =
      let next = chunk_loop (index + 1) index size sizes in
      let same = chunk_loop (index + 1) lo (acc + size) sizes in
      if ltb lo index && ltb budget (acc + size) then (start + lo, start + index) ∷ next else same

pub chunk_ranges : List ℕ → ℕ → ℕ → List (ℕ × ℕ)
unfolding chunk_loop
chunk_ranges sizes start budget = chunk_loop start budget (length sizes) 0 0 0 sizes
