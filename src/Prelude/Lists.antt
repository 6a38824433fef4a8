-- ===== src/Prelude/Lists.antt =====
-- Lists measured and indexed by native numbers, under the library's names.
use Prim.Native.Nat.{ℕ, zero, suc, ◌<◌, ◌+◌}
use mathlib.Core.Path.{◌≡◌, refl, sym, subst, ap}
use mathlib.Core.Logic.{◌⊎◌, inl, inr}
use mathlib.Core.Bool.{Bool, true, false, ◌||◌}
use mathlib.Core.Option.{Option, none, some}
use mathlib.Core.List.{List, [], ◌∷◌, ◌++◌, map}
use native.Mathlib.Omega.{arith}
use interplanetary_asynchron.Prelude.Tests.{Eq, Bool-cases, if◌then◌else◌}

abbrev past_first : Option ℕ → Option ℕ
past_first none = none
past_first (some i) = some (suc i)

abbrev pub cons_some : {A : Type 0} → Option A → List A → List A
cons_some none xs = xs
cons_some (some x) xs = x ∷ xs

module _ {A : Type 0} where
  abbrev pub length : List A → ℕ
  length [] = 0
  length (x ∷ xs) = suc (length xs)

  abbrev pub is_empty : List A → Bool
  is_empty [] = true
  is_empty (x ∷ xs) = false

  abbrev pub get_or : List A → ℕ → A → A
  get_or [] i d = d
  get_or (x ∷ xs) zero d = x
  get_or (x ∷ xs) (suc i) d = get_or xs i d

  abbrev pub get_elem? : List A → ℕ → Option A
  get_elem? [] i = none
  get_elem? (x ∷ xs) zero = some x
  get_elem? (x ∷ xs) (suc i) = get_elem? xs i

  -- Membership with its position kept, as a type by recursion that the tactics read.
  abbrev pub In : A → List A → Type 0
  In a [] = ⊥
  In a (x ∷ xs) = (a ≡ x) ⊎ In a xs

  abbrev pub All : (A → Type 0) → List A → Type 0
  All P [] = Unit
  All P (x ∷ xs) = P x × All P xs

  -- `Iterator::filter_map`.
  abbrev pub filter_map : {B : Type 0} → (A → Option B) → List A → List B
  filter_map f [] = []
  filter_map f (x ∷ xs) = cons_some (f x) (filter_map f xs)

module _ {A : Type 0} where
  -- `Iterator::position`.
  unfoldable pub position : (A → Bool) → List A → Option ℕ
  position p [] = none
  position p (x ∷ xs) = if p x then some 0 else past_first (position p xs)

  -- The entry at the position passes the test.
  pub position-eq_some :
      (p : A → Bool) (xs : List A) (i : ℕ)
      → position p xs ≡ some i
      → (a : A) × (get_elem? xs i ≡ some a) × (p a ≡ true) × In a xs
  unfolding position
  position-eq_some p [] i h = ground arith
  position-eq_some p (x ∷ xs) zero h = (x, refl, ground arith, inl refl)
  position-eq_some p (x ∷ xs) (suc i) h =
      let (a, e, t, m) = position-eq_some p xs i (ground arith) in (a, e, t, inr m)

  -- A list with an entry that passes the test has such a position.
  pub position_found :
      (p : A → Bool) (a : A) (xs : List A)
      → In a xs
      → p a ≡ true
      → (i : ℕ) × (position p xs ≡ some i)
  unfolding position
  position_found p a [] m h = absurd m
  position_found p a (x ∷ xs) (inl e) h = (0, ground arith)
  position_found p a (x ∷ xs) (inr m) h = elim (Bool-cases (p x)) [
    | inl t ↦ (0, rw t)
    | inr f ↦ let (i, e) = position_found p a xs m h in (suc i, rw (f, e))
  ]

  pub length-map : {B : Type 0} (f : A → B) (xs : List A) → length (map f xs) ≡ length xs
  length-map f [] = refl
  length-map f (x ∷ xs) = ap suc (length-map f xs)

  pub length-append : (xs ys : List A) → length (xs ++ ys) ≡ length xs + length ys
  length-append [] ys = omega arith
  length-append (x ∷ xs) ys = omega (arith, length-append xs ys)

  pub In-map :
      {B : Type 0} (f : A → B) (y : B) (xs : List A)
      → In y (map f xs)
      → (x : A) × In x xs × (y ≡ f x)
  In-map f y [] m = absurd m
  In-map f y (x ∷ xs) (inl e) = (x, inl refl, e)
  In-map f y (x ∷ xs) (inr m) = let (z, n, e) = In-map f y xs m in (z, inr n, e)

  pub In-map_of_In : {B : Type 0} (f : A → B) (x : A) (xs : List A) → In x xs → In (f x) (map f xs)
  In-map_of_In f x [] m = absurd m
  In-map_of_In f x (y ∷ ys) (inl e) = inl (ap f e)
  In-map_of_In f x (y ∷ ys) (inr m) = inr (In-map_of_In f x ys m)

  pub filter_map-cong :
      {B : Type 0} (f g : A → Option B) (xs : List A)
      → ((x : A) → In x xs → f x ≡ g x)
      → filter_map f xs ≡ filter_map g xs
  filter_map-cong f g [] same = refl
  filter_map-cong f g (x ∷ xs) same =
      rw (same x (inl refl), filter_map-cong f g xs (λ y m. same y (inr m))) refl

  pub In-filter_map :
      {B : Type 0} (f : A → Option B) (x : A) (y : B) (xs : List A)
      → In x xs
      → f x ≡ some y
      → In y (filter_map f xs)
  In-filter_map f x y [] m h = absurd m
  In-filter_map {B} f x y (z ∷ zs) (inl e) h =
      subst (λ o. In y (cons_some o (filter_map f zs))) (sym (rw e at h)) (inl refl)
  In-filter_map {B} f x y (z ∷ zs) (inr m) h = past_head (f z) (In-filter_map f x y zs m h)
    where
      past_head : (o : Option B) → In y (filter_map f zs) → In y (cons_some o (filter_map f zs))
      past_head none n = n
      past_head (some b) n = inr n

  pub All-filter_map :
      {B : Type 0} (f : A → Option B) (P : B → Type 0) (xs : List A)
      → ((x : A) (y : B) → In x xs → f x ≡ some y → P y)
      → All P (filter_map f xs)
  All-filter_map f P [] g = tt
  All-filter_map {B} f P (x ∷ xs) g =
      here (f x) refl (All-filter_map f P xs (λ z y m e. g z y (inr m) e))
    where
      here :
          (o : Option B) → f x ≡ o → All P (filter_map f xs) → All P (cons_some o (filter_map f xs))
      here none e q = q
      here (some b) e q = (g x b (inl refl) e, q)

  pub All-map :
      {B : Type 0} (f : A → B) (P : B → Type 0) (xs : List A)
      → All (λ x. P (f x)) xs
      → All P (map f xs)
  All-map f P [] q = q
  All-map f P (x ∷ xs) q = (q.0, All-map f P xs q.1)

  pub All-append : (P : A → Type 0) (xs ys : List A) → All P xs → All P ys → All P (xs ++ ys)
  All-append P [] ys p q = q
  All-append P (x ∷ xs) ys p q = (p.0, All-append P xs ys p.1 q)

  pub All-tabulate : (P : A → Type 0) (xs : List A) → ((a : A) → In a xs → P a) → All P xs
  All-tabulate P [] f = tt
  All-tabulate P (x ∷ xs) f = (f x (inl refl), All-tabulate P xs (λ a m. f a (inr m)))

  pub get_or-map :
      {B : Type 0} (f : A → B) (xs : List A) (i : ℕ) (d : B) (a : A)
      → get_elem? xs i ≡ some a
      → get_or (map f xs) i d ≡ f a
  get_or-map f [] i d a h = ground arith
  get_or-map f (x ∷ xs) zero d a h = ground arith
  get_or-map f (x ∷ xs) (suc i) d a h = get_or-map f xs i d a h

  pub get_elem?-lt : (xs : List A) (i : ℕ) (a : A) → get_elem? xs i ≡ some a → i < length xs
  get_elem?-lt [] i a h = ground arith
  get_elem?-lt (x ∷ xs) zero a h = omega arith
  get_elem?-lt (x ∷ xs) (suc i) a h = omega (arith, get_elem?-lt xs i a h)

  pub All-at : (P : A → Type 0) (a : A) (xs : List A) → All P xs → In a xs → P a
  All-at P a [] h m = absurd m
  All-at P a (x ∷ xs) h (inl e) = rw e h.0
  All-at P a (x ∷ xs) h (inr m) = All-at P a xs h.1 m

  pub In-append_left : (a : A) (xs ys : List A) → In a xs → In a (xs ++ ys)
  In-append_left a [] ys m = absurd m
  In-append_left a (x ∷ xs) ys (inl e) = inl e
  In-append_left a (x ∷ xs) ys (inr m) = inr (In-append_left a xs ys m)

  pub In-append_right : (a : A) (xs ys : List A) → In a ys → In a (xs ++ ys)
  In-append_right a [] ys m = m
  In-append_right a (x ∷ xs) ys m = inr (In-append_right a xs ys m)

  pub In-append_cases : (a : A) (xs ys : List A) → In a (xs ++ ys) → In a xs ⊎ In a ys
  In-append_cases a [] ys m = inr m
  In-append_cases a (x ∷ xs) ys (inl e) = inl (inl e)
  In-append_cases a (x ∷ xs) ys (inr m) = elim (In-append_cases a xs ys m) [
    | inl l ↦ inl (inr l)
    | inr r ↦ inr r
  ]

module _ {A : Type 0} ⦃e : Eq A⦄ where
  -- `slice::contains`.
  unfoldable pub contains : List A → A → Bool
  contains [] a = false
  contains (x ∷ xs) a = e.beq x a || contains xs a

  pub contains-In : (xs : List A) (a : A) → contains xs a ≡ true → In a xs
  unfolding contains
  contains-In [] a h = ground arith
  contains-In (x ∷ xs) a h = elim (Bool-cases (e.beq x a)) [
    | inl y ↦ inl (ground (arith, e.beq_iff x a))
    | inr n ↦ inr (contains-In xs a (ground arith))
  ]

  pub In-contains : (xs : List A) (a : A) → In a xs → contains xs a ≡ true
  unfolding contains
  In-contains [] a m = absurd m
  In-contains (x ∷ xs) a (inl p) = ground (arith, e.beq_iff x a)
  In-contains (x ∷ xs) a (inr m) = ground (arith, In-contains xs a m)

  -- `if !xs.contains(&a) { xs.push(a) }`
  unfoldable pub push_new : List A → A → List A
  push_new xs a = if contains xs a then xs else xs ++ a ∷ []

  -- `Vec::dedup`: runs of equal elements become one.
  unfoldable pub dedup : List A → List A
  dedup [] = []
  dedup (x ∷ []) = x ∷ []
  dedup (x ∷ y ∷ rest) = let tail = dedup (y ∷ rest) in if e.beq x y then tail else x ∷ tail
