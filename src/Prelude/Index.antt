-- ===== src/Prelude/Index.antt =====
-- A list that is searched by a key of its entries: `iter().find`, and a write through
-- `iter_mut().find` or a push.
use mathlib.Core.Option
use interplanetary_asynchron.Prelude.{
  ◌≡◌, refl, ◌≢◌, inl, inr, Option, none, some, List, [], ◌∷◌, map, arith, if◌then◌else◌,
  Bool-cases, Eq, beq_of_ne, nat_eq, pair_eq,
}
use interplanetary_asynchron.Types.Scale.{domain_eq}

module _ {A K : Type 0} ⦃e : Eq K⦄ (key : A → K) where
  unfoldable pub find_by : List A → K → Option A
  find_by [] k = none
  find_by (x ∷ xs) k = if e.beq (key x) k then some x else find_by xs k

  unfoldable pub put_by : List A → A → List A
  put_by [] y = y ∷ []
  put_by (x ∷ xs) y = if e.beq (key x) (key y) then y ∷ xs else x ∷ put_by xs y

  pub find_by-key : (xs : List A) (k : K) (x : A) → find_by xs k ≡ some x → key x ≡ k
  unfolding find_by
  find_by-key [] k x h = absurd (ground arith)
  find_by-key (y ∷ ys) k x h = elim (Bool-cases (e.beq (key y) k)) [
    | inl t ↦ ground (arith, e.beq_iff (key y) k)
    | inr f ↦ find_by-key ys k x (rw f at h)
  ]

  pub find_by-put_by :
      (xs : List A) (y : A) (k : K)
      → find_by (put_by xs y) k ≡ (if e.beq (key y) k then some y else find_by xs k)
  unfolding find_by put_by
  find_by-put_by [] y k = refl
  find_by-put_by (x ∷ xs) y k = ground (
    arith,
    e.beq_iff (key x) (key y),
    e.beq_iff (key x) k,
    e.beq_iff (key y) k,
    find_by-put_by xs y k,
  )

  pub find_by-put_here :
      (xs : List A) (y : A) (k : K) → key y ≡ k → find_by (put_by xs y) k ≡ some y
  find_by-put_here xs y k same = ground (arith, find_by-put_by xs y k, e.beq_iff (key y) k)

  pub find_by-put_other :
      (xs : List A) (y : A) (k : K) → key y ≢ k → find_by (put_by xs y) k ≡ find_by xs k
  find_by-put_other xs y k other = rw (find_by-put_by xs y k, beq_of_ne (key y) k other) refl

  pub find_by-map :
      (f : A → A)
      → ((x : A) → key (f x) ≡ key x)
      → (xs : List A) (k : K) → find_by (map f xs) k ≡ Option.map f (find_by xs k)
  unfolding find_by
  find_by-map f keeps [] k = refl
  find_by-map f keeps (x ∷ xs) k = elim (Bool-cases (e.beq (key x) k)) [
    | inl t ↦ rw (keeps x, t) refl
    | inr n ↦ rw (keeps x, n) (find_by-map f keeps xs k)
  ]
