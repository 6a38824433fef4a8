-- ===== src/Examples/Formats.antt =====
-- Numbers, domains, pairs, lists and alternatives as lists of numbers, in the manner of SCALE: a list
-- has its length before it, and a variant its number.
use interplanetary_asynchron.Prelude.{
  ℕ, zero, suc, ◌≡◌, refl, ap, ◌⊎◌, inl, inr, Option, none, some, List, [], ◌∷◌, length,
}
use interplanetary_asynchron.Packages.{Bytes}
use interplanetary_asynchron.Types.Scale.{DomainId, earth, moon, mars}

pub record Format (A : Type 0) : Type 0 where
  pub write : A → Bytes → Bytes
  pub read : Bytes → Option (A × Bytes)
  pub read-write : (a : A) (rest : Bytes) → read (write a rest) ≡ some (a, rest)

abbrev and_then : {A B : Type 0} → Option A → (A → Option B) → Option B
and_then none f = none
and_then (some a) f = f a

abbrev read_number : Bytes → Option (ℕ × Bytes)
read_number [] = none
read_number (n ∷ rest) = some (n, rest)

instance abbrev pub number_format : Format ℕ
number_format = record {
  write = λ n rest. n ∷ rest;
  read = read_number;
  read-write = λ n rest. refl;
}

module _ {A B : Type 0} ⦃f : Format A⦄ where
  -- Another form of what a format writes.
  abbrev pub via : (to : B → A) (from : A → B) → ((b : B) → from (to b) ≡ b) → Format B
  via to from back = record {
    write = λ b rest. f.write (to b) rest;
    read = λ xs. and_then (f.read xs) (λ p. some (from p.0, p.1));
    read-write = λ b rest. rw (f.read-write (to b) rest) (ap (λ x. some (x, rest)) (back b));
  }

module _ {A B : Type 0} ⦃f : Format A⦄ ⦃g : Format B⦄ where
  instance abbrev pub pair_format : Format (A × B)
  pair_format = record {
    write = λ p rest. f.write p.0 (g.write p.1 rest);
    read = λ xs. and_then (f.read xs) (λ p. and_then (g.read p.1) (λ q. some ((p.0, q.0), q.1)));
    read-write = λ p rest. rw (f.read-write p.0 (g.write p.1 rest), g.read-write p.1 rest) refl;
  }

module _ {A : Type 0} ⦃f : Format A⦄ where
  abbrev write_all : List A → Bytes → Bytes
  write_all [] rest = rest
  write_all (x ∷ xs) rest = f.write x (write_all xs rest)

  abbrev read_all : ℕ → Bytes → Option (List A × Bytes)
  read_all zero bytes = some ([], bytes)
  read_all (suc n) bytes =
      and_then (f.read bytes) (λ p. and_then (read_all n p.1) (λ q. some (p.0 ∷ q.0, q.1)))

  pub read_all-write_all :
      (xs : List A) (rest : Bytes) → read_all (length xs) (write_all xs rest) ≡ some (xs, rest)
  read_all-write_all [] rest = refl
  read_all-write_all (x ∷ xs) rest =
      rw (f.read-write x (write_all xs rest), read_all-write_all xs rest) refl

  instance abbrev pub list_format : Format (List A)
  list_format = record {
    write = λ xs rest. length xs ∷ write_all xs rest;
    read = λ bytes. and_then (read_number bytes) (λ p. read_all p.0 p.1);
    read-write = read_all-write_all;
  }

module _ {A B : Type 0} ⦃f : Format A⦄ ⦃g : Format B⦄ where
  abbrev write_either : A ⊎ B → Bytes → Bytes
  write_either (inl a) rest = 0 ∷ f.write a rest
  write_either (inr b) rest = 1 ∷ g.write b rest

  abbrev read_variant : ℕ → Bytes → Option ((A ⊎ B) × Bytes)
  read_variant zero bytes = and_then (f.read bytes) (λ p. some (inl p.0, p.1))
  read_variant (suc n) bytes = and_then (g.read bytes) (λ p. some (inr p.0, p.1))

  abbrev read_either : Bytes → Option ((A ⊎ B) × Bytes)
  read_either bytes = and_then (read_number bytes) (λ p. read_variant p.0 p.1)

  pub read_either-write_either :
      (x : A ⊎ B) (rest : Bytes) → read_either (write_either x rest) ≡ some (x, rest)
  read_either-write_either (inl a) rest = rw (f.read-write a rest) refl
  read_either-write_either (inr b) rest = rw (g.read-write b rest) refl

  instance abbrev pub either_format : Format (A ⊎ B)
  either_format = record {
    write = write_either;
    read = read_either;
    read-write = read_either-write_either;
  }

abbrev domain_number : DomainId → ℕ
domain_number earth = 0
domain_number moon = 1
domain_number mars = 2

abbrev numbered_domain : ℕ → DomainId
numbered_domain zero = earth
numbered_domain (suc zero) = moon
numbered_domain (suc (suc n)) = mars

pub domain_back : (d : DomainId) → numbered_domain (domain_number d) ≡ d
domain_back earth = refl
domain_back moon = refl
domain_back mars = refl

instance abbrev pub domain_format : Format DomainId
domain_format = via domain_number numbered_domain domain_back

module _ {A : Type 0} ⦃f : Format A⦄ where
  abbrev pub encode : A → Bytes
  encode a = f.write a []

  abbrev pub decode : Bytes → Option A
  decode bytes = and_then (f.read bytes) (λ p. some p.0)

  pub decode-encode : (a : A) → decode (encode a) ≡ some a
  decode-encode a = rw (f.read-write a []) refl
