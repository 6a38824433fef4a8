-- ===== src/Prelude/Sorting.antt =====
-- `slice::sort_by`, which is stable, and `Ordering::then`.
use Prim.Native.Nat.{suc, Ordering}
use mathlib.Core.Path.{◌≡◌, refl}
use mathlib.Core.Logic.{inl, inr}
use mathlib.Core.Bool.{Bool, true, false}
use mathlib.Core.List.{List, [], ◌∷◌}
use native.Mathlib.Omega.{arith}
use interplanetary_asynchron.Prelude.{
  length, In, All, All-tabulate, All-at, if◌then◌else◌, Bool-cases, nat_eq, pair_eq,
}
use interplanetary_asynchron.Types.Scale.{domain_eq}

abbrev pub then_with : Ordering → Ordering → Ordering
then_with Ordering.eq o = o
then_with Ordering.lt o = Ordering.lt
then_with Ordering.gt o = Ordering.gt

abbrev pub not_greater : Ordering → Bool
not_greater Ordering.gt = false
not_greater Ordering.lt = true
not_greater Ordering.eq = true

module _ {A : Type 0} where
  pub insert_by : (A → A → Ordering) → A → List A → List A
  insert_by cmp x [] = x ∷ []
  insert_by cmp x (y ∷ ys) = if not_greater (cmp x y) then x ∷ y ∷ ys else y ∷ insert_by cmp x ys

  unfoldable pub sort_by : (A → A → Ordering) → List A → List A
  unfolding insert_by
  sort_by cmp [] = []
  sort_by cmp (x ∷ xs) = insert_by cmp x (sort_by cmp xs)

  length-insert_by :
      (cmp : A → A → Ordering) (x : A) (ys : List A) → length (insert_by cmp x ys) ≡ suc (length ys)
  unfolding insert_by
  length-insert_by cmp x [] = refl
  length-insert_by cmp x (y ∷ ys) = ground (arith, length-insert_by cmp x ys)

  pub length-sort_by : (cmp : A → A → Ordering) (xs : List A) → length (sort_by cmp xs) ≡ length xs
  unfolding sort_by
  length-sort_by cmp [] = refl
  length-sort_by cmp (x ∷ xs) =
      ground (arith, length-insert_by cmp x (sort_by cmp xs), length-sort_by cmp xs)

  In-insert_by_there :
      (cmp : A → A → Ordering) (a x : A) (ys : List A) → In a ys → In a (insert_by cmp x ys)
  unfolding insert_by
  In-insert_by_there cmp a x [] m = absurd m
  In-insert_by_there cmp a x (y ∷ ys) (inl e) = elim (Bool-cases (not_greater (cmp x y))) [
    | inl t ↦ rw t (inr (inl e))
    | inr f ↦ rw f (inl e)
  ]
  In-insert_by_there cmp a x (y ∷ ys) (inr m) = elim (Bool-cases (not_greater (cmp x y))) [
    | inl t ↦ rw t (inr (inr m))
    | inr f ↦ rw f (inr (In-insert_by_there cmp a x ys m))
  ]

  In-insert_by_here : (cmp : A → A → Ordering) (x : A) (ys : List A) → In x (insert_by cmp x ys)
  unfolding insert_by
  In-insert_by_here cmp x [] = inl refl
  In-insert_by_here cmp x (y ∷ ys) = elim (Bool-cases (not_greater (cmp x y))) [
    | inl t ↦ rw t (inl refl)
    | inr f ↦ rw f (inr (In-insert_by_here cmp x ys))
  ]

  -- Sorting loses no element.
  pub In-sort_by : (cmp : A → A → Ordering) (a : A) (xs : List A) → In a xs → In a (sort_by cmp xs)
  unfolding sort_by
  In-sort_by cmp a [] m = absurd m
  In-sort_by cmp a (x ∷ xs) (inl e) = rw e (In-insert_by_here cmp x (sort_by cmp xs))
  In-sort_by cmp a (x ∷ xs) (inr m) =
      In-insert_by_there cmp a x (sort_by cmp xs) (In-sort_by cmp a xs m)

  All-insert_by :
      (P : A → Type 0) (cmp : A → A → Ordering) (x : A) (ys : List A)
      → P x
      → All P ys
      → All P (insert_by cmp x ys)
  unfolding insert_by
  All-insert_by P cmp x [] p q = (p, tt)
  All-insert_by P cmp x (y ∷ ys) p q = elim (Bool-cases (not_greater (cmp x y))) [
    | inl t ↦ rw t (p, q)
    | inr f ↦ rw f (q.0, All-insert_by P cmp x ys p q.1)
  ]

  -- Nor does it bring any in.
  pub All-sort_by :
      (P : A → Type 0) (cmp : A → A → Ordering) (xs : List A) → All P xs → All P (sort_by cmp xs)
  unfolding sort_by
  All-sort_by P cmp [] q = q
  All-sort_by P cmp (x ∷ xs) q =
      All-insert_by P cmp x (sort_by cmp xs) q.0 (All-sort_by P cmp xs q.1)

-- Sorting brings no new entry.
pub In-of_sort_by :
    {A : Type 0} (cmp : A → A → Ordering) (a : A) (xs : List A) → In a (sort_by cmp xs) → In a xs
In-of_sort_by cmp a xs m =
    All-at (λ x. In x xs) a (sort_by cmp xs)
      (All-sort_by (λ x. In x xs) cmp xs (All-tabulate (λ x. In x xs) xs (λ x n. n))) m
