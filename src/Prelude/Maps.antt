-- ===== src/Prelude/Maps.antt =====
-- `BTreeMap` with text keys, as the list of its entries in the order of the keys, and `BTreeSet`.
use mathlib.Core.Path.{◌≡◌, refl, sym, ap, subst}
use mathlib.Core.Logic.{inl, inr}
use mathlib.Core.Bool.{Bool, false, ◌||◌}
use mathlib.Core.List.{List, [], ◌∷◌}
use mathlib.Core.Option.{Option, none, some}
use native.Mathlib.Omega.{arith}
use agent_transcript.Prelude.Tests.{if◌then◌else◌, Bool-cases}
use agent_transcript.Prelude.Lists.{any, keep_if, All}
use agent_transcript.Prelude.Text.{Bytes, bytes_eq, bytes_le, bytes_eq_sound, bytes_eq_refl}

pub bytes_eq_sym : (a b : Bytes) → bytes_eq a b ≡ bytes_eq b a
unfolding bytes_eq
bytes_eq_sym [] [] = refl
bytes_eq_sym [] (y ∷ ys) = refl
bytes_eq_sym (x ∷ xs) [] = refl
bytes_eq_sym (x ∷ xs) (y ∷ ys) = ground (arith, bytes_eq_sym xs ys)

-- `BTreeSet::insert`
unfoldable pub set_insert : Bytes → List Bytes → List Bytes
set_insert a [] = a ∷ []
set_insert a (x ∷ xs) =
    if bytes_eq a x then x ∷ xs else if bytes_le a x then a ∷ x ∷ xs else x ∷ set_insert a xs

-- `extend` of a `BTreeSet`.
unfoldable pub set_extend : List Bytes → List Bytes → List Bytes
unfolding set_insert
set_extend [] s = s
set_extend (a ∷ rest) s = set_extend rest (set_insert a s)

abbrev pub set_has : Bytes → List Bytes → Bool
set_has a = any (bytes_eq a)

module _ {ℓ} {V : Type ℓ} where
  -- `get`
  unfoldable pub lookup : Bytes → List (Bytes × V) → Option V
  lookup k [] = none
  lookup k ((k', v) ∷ m) = if bytes_eq k k' then some v else lookup k m

  -- `insert`
  unfoldable pub map_insert : Bytes → V → List (Bytes × V) → List (Bytes × V)
  map_insert k v [] = (k, v) ∷ []
  map_insert k v ((k', v') ∷ m) =
      if bytes_eq k k'
      then (k, v) ∷ m
      else if bytes_le k k'
      then (k, v) ∷ (k', v') ∷ m
      else (k', v') ∷ map_insert k v m

  pub lookup-map_insert :
      (k : Bytes) (v : V) (m : List (Bytes × V)) → lookup k (map_insert k v m) ≡ some v
  unfolding lookup map_insert
  lookup-map_insert k v [] = rw (bytes_eq_refl k) refl
  lookup-map_insert k v ((k', v') ∷ m) = elim (Bool-cases (bytes_eq k k')) [
    | inl e ↦ rw (e, bytes_eq_refl k) refl
    | inr e ↦ elim (Bool-cases (bytes_le k k')) [
      | inl l ↦ rw (e, l, bytes_eq_refl k) refl
      | inr l ↦ rw (e, l, e) (lookup-map_insert k v m)
    ]
  ]

  pub lookup-map_insert_other :
      (k j : Bytes) (v : V) (m : List (Bytes × V))
      → bytes_eq j k ≡ false
      → lookup j (map_insert k v m) ≡ lookup j m
  unfolding lookup map_insert
  lookup-map_insert_other k j v [] d = rw d refl
  lookup-map_insert_other k j v ((k', v') ∷ m) d = elim (Bool-cases (bytes_eq k k')) [
    | inl e ↦
        let same : bytes_eq j k' ≡ false =
          subst (λ x. bytes_eq j x ≡ false) (bytes_eq_sound k k' e) d in
        rw (e, d, same) refl
    | inr e ↦ elim (Bool-cases (bytes_le k k')) [
      | inl l ↦ rw (e, l, d) refl
      | inr l ↦
          rw (e, l)
            (ap (λ o. if bytes_eq j k' then some v' else o) (lookup-map_insert_other k j v m d))
    ]
  ]

  -- `retain` with a test on the key.
  pub lookup-keep_if :
      (p : Bytes → Bool) (k : Bytes) (m : List (Bytes × V))
      → lookup k (keep_if (λ e. p e.0) m) ≡ (if p k then lookup k m else none)
  unfolding lookup
  lookup-keep_if p k [] = elim (Bool-cases (p k)) [ inl e ↦ rw e refl | inr e ↦ rw e refl ]
  lookup-keep_if p k ((k', v) ∷ m) = elim (Bool-cases (bytes_eq k k')) [
    | inl e ↦
        let same : p k ≡ p k' = ap p (bytes_eq_sound k k' e) in
        elim (Bool-cases (p k')) [
          | inl q ↦ rw (q, e, same, q) refl
          | inr q ↦ rw (q, lookup-keep_if p k m, same, q) refl
        ]
    | inr e ↦ elim (Bool-cases (p k')) [
      | inl q ↦ rw (q, e) (lookup-keep_if p k m)
      | inr q ↦ rw (q, e) (lookup-keep_if p k m)
    ]
  ]

module _ {ℓ κ} {V : Type ℓ} (P : Bytes × V → Type κ) where
  pub All-map_insert :
      (k : Bytes) (v : V) (m : List (Bytes × V)) → P (k, v) → All P m → All P (map_insert k v m)
  unfolding map_insert
  All-map_insert k v [] p h = (p, tt)
  All-map_insert k v ((k', v') ∷ m) p (q, h) = elim (Bool-cases (bytes_eq k k')) [
    | inl e ↦ rw e (p, h)
    | inr e ↦ elim (Bool-cases (bytes_le k k')) [
      | inl l ↦ rw (e, l) (p, (q, h))
      | inr l ↦ rw (e, l) (q, All-map_insert k v m p h)
    ]
  ]

  pub All-lookup :
      (k : Bytes) (v : V) (m : List (Bytes × V)) → lookup k m ≡ some v → All P m → P (k, v)
  unfolding lookup
  All-lookup k v [] e h = absurd (cc)
  All-lookup k v ((k', v') ∷ m) e (q, h) = elim (Bool-cases (bytes_eq k k')) [
    | inl t ↦
        let same : v' ≡ v = ground (arith, t, e) in
        subst (λ x. P (x, v)) (sym (bytes_eq_sound k k' t)) (subst (λ x. P (k', x)) same q)
    | inr t ↦ All-lookup k v m (ground (arith, t, e)) h
  ]

pub set_has-set_insert :
    (b a : Bytes) (s : List Bytes) → set_has b (set_insert a s) ≡ bytes_eq b a || set_has b s
unfolding set_insert
set_has-set_insert b a [] = refl
set_has-set_insert b a (x ∷ xs) = elim (Bool-cases (bytes_eq a x)) [
  | inl e ↦ rw (e, bytes_eq_sound a x e) (ground arith)
  | inr e ↦ elim (Bool-cases (bytes_le a x)) [
    | inl l ↦ rw (e, l) refl
    | inr l ↦ rw (e, l, set_has-set_insert b a xs) (ground arith)
  ]
]

pub set_has-set_extend :
    (b : Bytes) (added s : List Bytes)
    → set_has b (set_extend added s) ≡ set_has b added || set_has b s
unfolding set_extend
set_has-set_extend b [] s = refl
set_has-set_extend b (a ∷ rest) s =
    rw (set_has-set_extend b rest (set_insert a s), set_has-set_insert b a s) (ground arith)
