-- ===== src/Catalog/Prune/Survivors.antt =====
-- A specification of `prune_to_current` of src/catalog.rs without its map of indexes.
use agent_transcript.Prelude.{
  ℕ, ◌+◌, ◌≤◌, ◌<◌, Bytes, bytes_eq, ◌≡◌, ◌↔◌, refl, sym, ap, ◌∙◌, subst, arith, Bool, true, false,
  ◌||◌, some, List, [], ◌∷◌, ◌++◌, append_assoc, append-nil, leb, any, All, map, length,
  length-append, get_elem?, sort_by, IsSorted, sort_by_of_IsSorted, if◌then◌else◌, Bool-cases, inl,
  inr, map-append,
}
use agent_transcript.Freshness.{Freshness}
use agent_transcript.Freshness.Order.{Outranks, prefer_iff}
use agent_transcript.Catalog.{Revision, hash_of}
use agent_transcript.Catalog.Prune.{
  superseded, Indexes, has_key, put, note_index, index_loop, gather, index_of, keep_current,
}

pub superseded_iff :
    (current : Freshness) (r : Revision)
    → (superseded current r ≡ true) ↔ Outranks current r.freshness
unfolding superseded
superseded_iff current r = ground (arith, prefer_iff r.freshness current)

abbrev pub mem : Bytes → List Bytes → Bool
mem hash = any (λ k. bytes_eq k hash)

-- The specification of the pruning: `seen` holds the hashes of the revisions kept so far.
unfoldable pub survivors : Freshness → List Bytes → List Revision → List Revision
survivors current seen [] = []
survivors current seen (r ∷ rs) =
    if superseded current r
    then survivors current seen rs
    else if mem (hash_of r) seen
    then survivors current seen rs
    else r ∷ survivors current (hash_of r ∷ seen) rs

module _ (current : Freshness) where
  -- The positions of the survivors, counted from `i`.
  positions : ℕ → List Bytes → List Revision → List ℕ
  positions i seen [] = []
  positions i seen (r ∷ rs) =
      if superseded current r
      then positions (i + 1) seen rs
      else if mem (hash_of r) seen
      then positions (i + 1) seen rs
      else i ∷ positions (i + 1) (hash_of r ∷ seen) rs

  positions-le :
      (j i : ℕ) (seen : List Bytes) (rs : List Revision)
      → j ≤ i
      → All (λ k. leb j k ≡ true) (positions i seen rs)
  unfolding positions
  positions-le j i seen [] h = tt
  positions-le j i seen (r ∷ rs) h = elim (Bool-cases (superseded current r)) [
    | inl e ↦ rw e (positions-le j (i + 1) seen rs (omega arith))
    | inr e ↦ elim (Bool-cases (mem (hash_of r) seen)) [
      | inl d ↦ rw (e, d) (positions-le j (i + 1) seen rs (omega arith))
      | inr d ↦ rw (e, d) (ground arith, positions-le j (i + 1) (hash_of r ∷ seen) rs (omega arith))
    ]
  ]

  positions-IsSorted :
      (i : ℕ) (seen : List Bytes) (rs : List Revision) → IsSorted leb (positions i seen rs)
  unfolding positions
  positions-IsSorted i seen [] = tt
  positions-IsSorted i seen (r ∷ rs) = elim (Bool-cases (superseded current r)) [
    | inl e ↦ rw e (positions-IsSorted (i + 1) seen rs)
    | inr e ↦ elim (Bool-cases (mem (hash_of r) seen)) [
      | inl d ↦ rw (e, d) (positions-IsSorted (i + 1) seen rs)
      | inr d ↦
          rw (e, d)
            (
              positions-le i (i + 1) (hash_of r ∷ seen) rs (omega arith),
              positions-IsSorted (i + 1) (hash_of r ∷ seen) rs,
            )
    ]
  ]

pub get_elem?-middle :
    (pre : List Revision) (r : Revision) (rs : List Revision)
    → get_elem? (pre ++ r ∷ rs) (length pre) ≡ some r
get_elem?-middle [] r rs = refl
get_elem?-middle (p ∷ pre) r rs = get_elem?-middle pre r rs

module _ (current : Freshness) where
  gather-positions :
      (pre rs : List Revision) (i : ℕ) (seen : List Bytes)
      → i ≡ length pre
      → gather (pre ++ rs) (positions current i seen rs) ≡ survivors current seen rs
  unfolding gather positions survivors
  gather-positions pre [] i seen e = refl
  gather-positions pre (r ∷ rs) i seen e =
      let here : get_elem? (pre ++ r ∷ rs) i ≡ some r = rw e (get_elem?-middle pre r rs) in
      let next = λ (s : List Bytes).
        subst (λ l. gather l (positions current (i + 1) s rs) ≡ survivors current s rs)
          (append_assoc pre (r ∷ []) rs)
          (gather-positions (pre ++ r ∷ []) rs (i + 1) s
            (omega (arith, length-append {0} pre (r ∷ [])))) in
      ground (arith, here, next seen, next (hash_of r ∷ seen))

  put_new :
      (hash : Bytes) (i : ℕ) (m : Indexes)
      → has_key hash m ≡ false
      → put hash i m ≡ m ++ (hash, i) ∷ []
  unfolding put has_key
  put_new hash i [] e = refl
  put_new hash i ((k, j) ∷ m) e = ground (arith, put_new hash i m)

  has_key-append :
      (k hash : Bytes) (i : ℕ) (m : Indexes)
      → has_key k (m ++ (hash, i) ∷ []) ≡ (has_key k m || bytes_eq hash k)
  unfolding has_key
  has_key-append k hash i [] = ground arith
  has_key-append k hash i ((l, j) ∷ m) = ground (arith, has_key-append k hash i m)

  -- The map holds the hashes of `seen`.
  abbrev Agrees : Indexes → List Bytes → Type 0
  Agrees m seen = (k : Bytes) → has_key k m ≡ mem k seen

  Agrees-append :
      (hash : Bytes) (i : ℕ) (m : Indexes) (seen : List Bytes)
      → Agrees m seen
      → Agrees (m ++ (hash, i) ∷ []) (hash ∷ seen)
  Agrees-append hash i m seen a k = ground (arith, has_key-append k hash i m, a k)

  map-append_one :
      (m : Indexes) (e : Bytes × ℕ) → map index_of (m ++ e ∷ []) ≡ map index_of m ++ e.1 ∷ []
  map-append_one m e = map-append index_of m (e ∷ [])

  index_loop-cons :
      (best i : ℕ) (r : Revision) (rs : List Revision) (m m' : Indexes)
      → note_index current best i r m ≡ m'
      → map index_of (index_loop current best i (r ∷ rs) m)
        ≡ map index_of (index_loop current best (i + 1) rs m')
  unfolding index_loop
  index_loop-cons best i r rs m m' e =
      ap (λ x. map index_of (index_loop current best (i + 1) rs x)) e

  note_index_old :
      (best i : ℕ) (r : Revision) (m : Indexes)
      → superseded current r ≡ true
      → note_index current best i r m ≡ m
  unfolding note_index
  note_index_old best i r m old = rw old

  note_index_known :
      (best i : ℕ) (r : Revision) (m : Indexes)
      → best < i
      → superseded current r ≡ false
      → has_key (hash_of r) m ≡ true
      → note_index current best i r m ≡ m
  unfolding note_index
  note_index_known best i r m h top known = ground arith

  note_index_new :
      (best i : ℕ) (r : Revision) (m : Indexes)
      → superseded current r ≡ false
      → has_key (hash_of r) m ≡ false
      → note_index current best i r m ≡ m ++ (hash_of r, i) ∷ []
  unfolding note_index
  note_index_new best i r m top new = ground (arith, put_new (hash_of r) i m)

  -- Behind the current revision no index is replaced.
  index_loop-positions :
      (best i : ℕ) (rs : List Revision) (m : Indexes) (seen : List Bytes)
      → best < i
      → Agrees m seen
      → map index_of (index_loop current best i rs m)
        ≡ map index_of m ++ positions current i seen rs
  unfolding positions
  index_loop-positions best i [] m seen h a = unfold index_loop in sym (append-nil _)
  index_loop-positions best i (r ∷ rs) m seen h a = elim (Bool-cases (superseded current r)) [
    | inl old ↦ rw old (
        index_loop-cons best i r rs m m (note_index_old best i r m old)
        ∙ index_loop-positions best (i + 1) rs m seen (omega arith) a)
    | inr top ↦ elim (Bool-cases (mem (hash_of r) seen)) [
      | inl known ↦
          rw (top, known)
            (index_loop-cons best i r rs m m
                (note_index_known best i r m h top (a (hash_of r) ∙ known))
              ∙ index_loop-positions best (i + 1) rs m seen (omega arith) a)
      | inr new ↦
          let m' = m ++ (hash_of r, i) ∷ [] in
          let tail = positions current (i + 1) (hash_of r ∷ seen) rs in
          rw (top, new)
            (index_loop-cons best i r rs m m' (note_index_new best i r m top (a (hash_of r) ∙ new))
              ∙ index_loop-positions best (i + 1) rs m' (hash_of r ∷ seen) (omega arith)
                  (Agrees-append (hash_of r) i m seen a)
              ∙ ap (λ l. l ++ tail) (map-append_one m (hash_of r, i))
              ∙ append_assoc (map index_of m) (i ∷ []) tail)
    ]
  ]

  -- In front of the current revision nothing is kept.
  index_loop_front :
      (best i k : ℕ) (front rs : List Revision) (m : Indexes)
      → All (λ r. superseded current r ≡ true) front
      → k ≡ i + length front
      → map index_of (index_loop current best i (front ++ rs) m)
        ≡ map index_of (index_loop current best k rs m)
  index_loop_front best i k [] rs m old e = rw (zero_more e)
    where
      zero_more : k ≡ i + 0 → k ≡ i
      zero_more e = omega arith
  index_loop_front best i k (r ∷ front) rs m (o, old) e =
      index_loop-cons best i r (front ++ rs) m m (note_index_old best i r m o)
      ∙ index_loop_front best (i + 1) k front rs m old (omega arith)

  positions_front :
      (i k : ℕ) (seen : List Bytes) (front rs : List Revision)
      → All (λ r. superseded current r ≡ true) front
      → k ≡ i + length front
      → positions current i seen (front ++ rs) ≡ positions current k seen rs
  unfolding positions
  positions_front i k seen [] rs old e = ap (λ n. positions current n seen rs) (omega arith)
  positions_front i k seen (r ∷ front) rs (o, old) e =
      rw o (positions_front (i + 1) k seen front rs old (omega arith))

  -- The hash map of the source, cut at the current revision, gives the specification's list.
  pub keep_current-survivors :
      (front : List Revision) (b : Revision) (rs : List Revision) (best : ℕ)
      → best ≡ length front
      → All (λ r. superseded current r ≡ true) front
      → superseded current b ≡ false
      → keep_current (front ++ b ∷ rs) best current ≡ survivors current [] (front ++ b ∷ rs)
  unfolding keep_current has_key positions
  keep_current-survivors front b rs best e old top =
      ap (λ l. gather whole (sort_by leb l)) kept
      ∙ ap (gather whole) (sort_by_of_IsSorted leb _ (positions-IsSorted current 0 [] whole))
      ∙ gather-positions [] whole 0 [] refl
    where
      whole : List Revision
      whole = front ++ b ∷ rs

      first : Agrees ((hash_of b, best) ∷ []) (hash_of b ∷ [])
      first k = ground arith

      kept : map index_of (index_loop current best 0 whole []) ≡ positions current 0 [] whole
      kept =
          index_loop_front best 0 best front (b ∷ rs) [] old (omega arith)
          ∙ index_loop-cons best best b rs [] ((hash_of b, best) ∷ [])
              (note_index_new best best b [] top refl)
          ∙ index_loop-positions best (best + 1) rs ((hash_of b, best) ∷ []) (hash_of b ∷ [])
              (omega arith) first
          ∙ sym (positions_front 0 best [] front (b ∷ rs) old (omega arith) ∙ rw top)
