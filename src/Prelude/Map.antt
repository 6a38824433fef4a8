-- ===== src/Prelude/Map.antt =====
-- A FRAME storage map as an association list: `get`, `insert`, `contains_key`, and the weight of
-- its values.
use Prim.Native.Nat.{ℕ, ◌+◌, ◌≤◌}
use mathlib.Core.Path.{◌≡◌, refl, sym, subst, subst₂}
use interplanetary_asynchron.Prelude.Lists.{All}
use mathlib.Core.Logic.{◌≢◌, ◌⊎◌, inl, inr}
use mathlib.Core.Bool.{Bool, true, false}
use mathlib.Core.Option.{Option, none, some}
use mathlib.Core.List.{List, [], ◌∷◌}
use native.Mathlib.Omega.{arith}
use interplanetary_asynchron.Prelude.Tests.{Eq, Bool-cases, if◌then◌else◌}

abbrev pub Map : Type 0 → Type 0 → Type 0
Map K V = List (K × V)

abbrev pub weight_of : {V : Type 0} → (V → ℕ) → Option V → ℕ
weight_of f none = 0
weight_of f (some v) = f v

abbrev pub or_default : {V : Type 0} → V → Option V → V
or_default d none = d
or_default d (some v) = v

-- The sum of a measure over all values.
unfoldable pub weight : {K V : Type 0} → (V → ℕ) → Map K V → ℕ
weight f [] = 0
weight f ((k, v) ∷ m) = f v + weight f m

module _ {K V : Type 0} ⦃e : Eq K⦄ where
  unfoldable pub get : Map K V → K → Option V
  get [] k = none
  get ((j, v) ∷ m) k = if e.beq j k then some v else get m k

  unfoldable pub insert : Map K V → K → V → Map K V
  insert [] k v = (k, v) ∷ []
  insert ((j, w) ∷ m) k v = if e.beq j k then (j, v) ∷ m else (j, w) ∷ insert m k v

  abbrev pub contains_key : Map K V → K → Bool
  contains_key m k = elim (get m k) [ none ↦ false | some _ ↦ true ]

  pub get-insert :
      (m : Map K V) (k j : K) (v : V)
      → get (insert m k v) j ≡ (if e.beq k j then some v else get m j)
  unfolding get insert
  get-insert [] k j v = refl
  get-insert ((i, w) ∷ m) k j v =
      ground (arith, e.beq_iff i k, e.beq_iff i j, e.beq_iff k j, get-insert m k j v)

  pub get-insert_self : (m : Map K V) (k : K) (v : V) → get (insert m k v) k ≡ some v
  get-insert_self m k v = ground (arith, get-insert m k k v, e.beq_iff k k)

  pub contains_key-insert_self :
      (m : Map K V) (k : K) (v : V) → contains_key (insert m k v) k ≡ true
  contains_key-insert_self m k v = rw (get-insert_self m k v, contains_key) refl

  -- No key is lost by a write.
  pub contains_key-insert :
      (m : Map K V) (k j : K) (v : V)
      → contains_key m j ≡ true
      → contains_key (insert m k v) j ≡ true
  contains_key-insert m k j v here = elim (Bool-cases (e.beq k j)) [
    | inl y ↦ rw (get-insert m k j v, contains_key) (rw y refl)
    | inr n ↦ rw (get-insert m k j v, contains_key) (rw n here)
  ]

  pub get-insert_other : (m : Map K V) (k j : K) (v : V) → k ≢ j → get (insert m k v) j ≡ get m j
  get-insert_other m k j v other = ground (arith, get-insert m k j v, e.beq_iff k j)

  -- A read after a write finds the new value at its key, or an old one at another key.
  pub get-insert_cases :
      (m : Map K V) (k j : K) (v w : V)
      → get (insert m k v) j ≡ some w
      → ((k ≡ j) × (v ≡ w)) ⊎ ((e.beq k j ≡ false) × (get m j ≡ some w))
  get-insert_cases m k j v w h = elim (Bool-cases (e.beq k j)) [
    | inl y ↦ inl ((e.beq_iff k j).0 y, ground (arith, get-insert m k j v))
    | inr n ↦ inr (n, ground (arith, get-insert m k j v))
  ]

  -- A write at a key that was free keeps all other reads.
  pub get-insert_fresh :
      (m : Map K V) (k j : K) (v w : V)
      → get m k ≡ none
      → get m j ≡ some w
      → get (insert m k v) j ≡ some w
  get-insert_fresh m k j v w h g = ground (arith, get-insert m k j v, e.beq_iff k j)

  -- Writing at a key trades the old value's weight for the new one's.
  pub weight-insert :
      (f : V → ℕ) (m : Map K V) (k : K) (v : V)
      → weight f (insert m k v) + weight_of f (get m k) ≡ weight f m + f v
  unfolding get insert weight
  weight-insert f [] k v = omega arith
  weight-insert f ((i, w) ∷ m) k v = elim (Bool-cases (e.beq i k)) [
    | inl y ↦ rw y (omega arith)
    | inr n ↦ rw n (omega (arith, weight-insert f m k v))
  ]

  -- A value that is stored weighs no more than the whole map.
  pub weight_of-get_le :
      (f : V → ℕ) (m : Map K V) (k : K) (v : V) → get m k ≡ some v → f v ≤ weight f m
  unfolding get weight
  weight_of-get_le f [] k v h = ground arith
  weight_of-get_le f ((i, w) ∷ m) k v h = elim (Bool-cases (e.beq i k)) [
    | inl y ↦ ground arith
    | inr n ↦ ground (arith, weight_of-get_le f m k v)
  ]

module _ {K V : Type 0} ⦃e : Eq K⦄ (P : K → V → Type 0) where
  -- A property of every entry.
  abbrev pub Entries : Map K V → Type 0
  Entries m = All (λ entry. P entry.0 entry.1) m

  pub Entries-insert : (m : Map K V) (k : K) (v : V) → Entries m → P k v → Entries (insert m k v)
  unfolding insert
  Entries-insert [] k v all here = (here, tt)
  Entries-insert ((j, w) ∷ m) k v all here = elim (Bool-cases (e.beq j k)) [
    | inl y ↦ rw y (subst (λ x. P x v) (sym ((e.beq_iff j k).0 y)) here, all.1)
    | inr n ↦ rw n (all.0, Entries-insert m k v all.1 here)
  ]

  pub Entries-get : (m : Map K V) (k : K) (v : V) → Entries m → get m k ≡ some v → P k v
  unfolding get
  Entries-get [] k v all h = absurd (ground arith)
  Entries-get ((j, w) ∷ m) k v all h = elim (Bool-cases (e.beq j k)) [
    | inl y ↦ subst₂ P ((e.beq_iff j k).0 y) (ground arith) all.0
    | inr n ↦ Entries-get m k v all.1 (rw n at h)
  ]

module _ {K V : Type 0} ⦃e : Eq K⦄ (R : V → V → Type 0) where
  -- Every value that the first map stores is stored by the second, up to a change that `R` allows.
  abbrev pub Persists : Map K V → Map K V → Type 0
  Persists m n = (k : K) (v : V) → get m k ≡ some v → (w : V) × (get n k ≡ some w) × R v w

  pub Persists-trans :
      ((a b c : V) → R a b → R b c → R a c)
      → (l m n : Map K V) → Persists l m
      → Persists m n
      → Persists l n
  Persists-trans trans l m n p q k v h =
      let (w, g, r) = p k v h in let (x, f, t) = q k w g in (x, f, trans v w x r t)

  pub Persists-insert :
      ((a : V) → R a a)
      → (m : Map K V) (k : K) (w : V) → ((v : V) → get m k ≡ some v → R v w)
      → Persists m (insert m k w)
  Persists-insert reflexive m k w change j v h = elim (Bool-cases (e.beq k j)) [
    | inl y ↦ (w, ground (arith, get-insert m k j w), change v (ground (arith, e.beq_iff k j)))
    | inr n ↦ (v, ground (arith, get-insert m k j w), reflexive v)
  ]
