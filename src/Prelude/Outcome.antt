-- ===== src/Prelude/Outcome.antt =====
-- A dispatchable call's `DispatchResult`, and the chain of `?` and `ensure!` that its body is.
use mathlib.Core.Path.{◌≡◌, refl, subst}
use mathlib.Core.Bool.{Bool, true, false}
use mathlib.Core.Option.{Option, none, some}
use mathlib.Core.List.{List, [], ◌∷◌}
use interplanetary_asynchron.Prelude.Lists.{All}
use native.Mathlib.Omega.{arith}

pub data Outcome (E A : Type 0) : Type 0 where
  ok : A → Outcome E A
  err : E → Outcome E A

infixl 5 ◌>>=◌ ◌>>◌
unfoldable pub ◌>>=◌ : {E A B : Type 0} → Outcome E A → (A → Outcome E B) → Outcome E B
ok a >>= f = f a
err e >>= f = err e

unfoldable pub ◌>>◌ : {E B : Type 0} → Outcome E (Unit {0}) → Outcome E B → Outcome E B
unfolding ◌>>=◌
m >> k = m >>= λ _. k

-- `ensure!(test, error)`.
unfoldable pub ensure : {E : Type 0} → Bool → E → Outcome E (Unit {0})
ensure true e = ok tt
ensure false e = err e

-- `.ok_or(error)?`.
unfoldable pub ok_or : {E A : Type 0} → Option A → E → Outcome E A
ok_or none e = err e
ok_or (some a) e = ok a

-- A dispatch that fails is rolled back.
abbrev pub after : {E S : Type 0} → S → Outcome E S → S
after s (ok t) = t
after s (err e) = s

-- `Ensures P m`: if `m` succeeds, its result satisfies `P`.
pub data Ensures {E A : Type 0} (P : A → Type 0) : Outcome E A → Type 0 where
  on_ok : (a : A) → P a → Ensures P (ok a)
  on_err : (e : E) → Ensures P (err e)

pub Ensures-at :
    {E A : Type 0} {P : A → Type 0} {m : Outcome E A} {a : A} → Ensures P m → m ≡ ok a → P a
Ensures-at {P = P} (on_ok b p) e = subst P (ground arith) p
Ensures-at (on_err f) e = absurd (ground arith)

-- The rules for the three kinds of step: what follows may use that the step was passed.
module _ {E B : Type 0} {P : B → Type 0} where
  pub ensure-Ensures :
      (t : Bool) (e : E) (k : Outcome E B) → (t ≡ true → Ensures P k) → Ensures P (ensure t e >> k)
  unfolding ensure ◌>>◌
  ensure-Ensures true e k h = h refl
  ensure-Ensures false e k h = on_err e

  pub bind-Ensures :
      {A : Type 0} (m : Outcome E A) (k : A → Outcome E B)
      → ((a : A) → Ensures P (k a))
      → Ensures P (m >>= k)
  unfolding ◌>>=◌
  bind-Ensures (ok a) k h = h a
  bind-Ensures (err e) k h = on_err e

  pub ok_or-Ensures :
      {A : Type 0} (o : Option A) (e : E) (k : A → Outcome E B)
      → ((a : A) → o ≡ some a → Ensures P (k a))
      → Ensures P (ok_or o e >>= k)
  unfolding ok_or ◌>>=◌
  ok_or-Ensures none e k h = on_err e
  ok_or-Ensures (some a) e k h = h a refl

  pub after-holds :
      (Q : B → Type 0) (s : B) (m : Outcome E B)
      → Ensures P m
      → Q s
      → ((t : B) → P t → Q t)
      → Q (after s m)
  after-holds Q s (ok t) (on_ok _ p) q f = f t p
  after-holds Q s (err e) _ q f = q

-- A `for` loop whose body may return early with an error.
unfoldable pub for_each :
    {E A : Type 0} → (A → Outcome E (Unit {0})) → List A → Outcome E (Unit {0})
for_each f [] = ok tt
for_each f (x ∷ xs) = f x >> for_each f xs

-- What a chain of steps that succeeded has passed.
module _ {E : Type 0} where
  pub >>=-ok :
      {A B : Type 0} (m : Outcome E A) (k : A → Outcome E B) (b : B)
      → (m >>= k) ≡ ok b
      → (a : A) × (m ≡ ok a) × (k a ≡ ok b)
  unfolding ◌>>=◌
  >>=-ok (ok a) k b h = (a, refl, h)
  >>=-ok (err e) k b h = absurd (ground arith)

  pub >>-ok :
      {B : Type 0} (m : Outcome E (Unit {0})) (k : Outcome E B) (b : B)
      → (m >> k) ≡ ok b
      → (m ≡ ok tt) × (k ≡ ok b)
  unfolding ◌>>=◌ ◌>>◌
  >>-ok (ok a) k b h = (refl, h)
  >>-ok (err e) k b h = absurd (ground arith)

  pub ensure-ok :
      {B : Type 0} (t : Bool) (e : E) (k : Outcome E B) (b : B)
      → (ensure t e >> k) ≡ ok b
      → (t ≡ true) × (k ≡ ok b)
  unfolding ensure ◌>>=◌ ◌>>◌
  ensure-ok true e k b h = (refl, h)
  ensure-ok false e k b h = absurd (ground arith)

  pub ok_or-ok :
      {A B : Type 0} (o : Option A) (e : E) (k : A → Outcome E B) (b : B)
      → (ok_or o e >>= k) ≡ ok b
      → (a : A) × (o ≡ some a) × (k a ≡ ok b)
  unfolding ok_or ◌>>=◌
  ok_or-ok none e k b h = absurd (ground arith)
  ok_or-ok (some a) e k b h = (a, refl, h)

pub for_each-ok :
    {E A : Type 0} (f : A → Outcome E (Unit {0})) (xs : List A)
    → for_each f xs ≡ ok tt
    → All (λ x. f x ≡ ok tt) xs
unfolding for_each
for_each-ok f [] h = tt
for_each-ok f (x ∷ xs) h =
    let (here, rest) = >>-ok (f x) (for_each f xs) tt h in (here, for_each-ok f xs rest)

pub ok_injective : {E A : Type 0} (a b : A) → ◌≡◌ {A = Outcome E A} (ok a) (ok b) → a ≡ b
ok_injective a b h = ground arith
