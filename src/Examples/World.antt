-- ===== src/Examples/World.antt =====
-- A concrete hash, currency and account codec: the parameters of the model can be met.
use native.Mathlib.Decide.{dec_lt}
use interplanetary_asynchron.Prelude.{
  ℕ, suc, ◌+◌, ◌-◌, ◌*◌, ◌<◌, ◌≡◌, refl, ap, none, some, List, [], ◌∷◌, arith, leb, if◌then◌else◌,
  nat_beq_iff, nat_eq, pair_eq,
}
use interplanetary_asynchron.Prelude.Map.{
  Map, or_default, weight, get, insert, get-insert, weight-insert,
}
use interplanetary_asynchron.Transfers.Config.{Accounts, AccountsLaws, Currency, CurrencyLaws}
use interplanetary_asynchron.Transfers.Invariant.{IdsAreDistinct}
use interplanetary_asynchron.Types.Export.{export_id}
use interplanetary_asynchron.Types.Scale.{
  DomainId, index, domain_eq, Scale, u8, u16, u32, u64, u128, bytes, str, domain, domains, Hasher,
}

-- A pairing of numbers, and with it a hash of tuples that tells the shapes of the model apart.
abbrev pub pair : ℕ → ℕ → ℕ
pair a b = (a + b) * (a + b) + a

square_gap : (s t : ℕ) → s < t → s * s + s < t * t
square_gap s t lt = grind arith

pair-sum : (a b c d : ℕ) → pair a b ≡ pair c d → a + b ≡ c + d
pair-sum a b c d e = elim (dec_lt (a + b) (c + d)) [
  | yes lt ↦ absurd (omega (arith, square_gap (a + b) (c + d) lt))
  | no ge ↦ elim (dec_lt (c + d) (a + b)) [
    | yes gt ↦ absurd (omega (arith, square_gap (c + d) (a + b) gt))
    | no le ↦ omega arith
  ]
]

pair_injective : (a b c d : ℕ) → pair a b ≡ pair c d → (a ≡ c) × (b ≡ d)
pair_injective a b c d e =
    let same = pair-sum a b c d e in
    let squares = ap (λ (x : ℕ). x * x) same in
    let first : a ≡ c = omega arith in (first, omega arith)

index_injective : (c d : DomainId) → index c ≡ index d → c ≡ d
index_injective c d e = ground arith

abbrev pub encode_domains : List DomainId → ℕ
encode_domains [] = 0
encode_domains (d ∷ ds) = suc (pair (index d) (encode_domains ds))

encode_domains-injective : (cs ds : List DomainId) → encode_domains cs ≡ encode_domains ds → cs ≡ ds
encode_domains-injective [] [] e = refl
encode_domains-injective [] (d ∷ ds) e = absurd (omega (arith, e))
encode_domains-injective (c ∷ cs) [] e = absurd (omega (arith, e))
encode_domains-injective (c ∷ cs) (d ∷ ds) e =
    let (same, rest) =
      pair_injective (index c) (encode_domains cs) (index d) (encode_domains ds) (omega arith) in
    λ i. index_injective c d same i ∷ encode_domains-injective cs ds rest i

abbrev pub encode_field : Scale → ℕ
encode_field (u8 n) = pair 0 n
encode_field (u16 n) = pair 1 n
encode_field (u32 n) = pair 2 n
encode_field (u64 n) = pair 3 n
encode_field (u128 n) = pair 4 n
encode_field (bytes n) = pair 5 n
encode_field (str s) = pair 6 0
encode_field (domain d) = pair 7 (index d)
encode_field (domains ds) = pair 8 (encode_domains ds)

abbrev pub encode : List Scale → ℕ
encode [] = 0
encode (x ∷ xs) = suc (pair (encode_field x) (encode xs))

pub encode_injective :
    (x y : Scale) (xs ys : List Scale)
    → encode (x ∷ xs) ≡ encode (y ∷ ys)
    → (encode_field x ≡ encode_field y) × (encode xs ≡ encode ys)
encode_injective x y xs ys e =
    pair_injective (encode_field x) (encode xs) (encode_field y) (encode ys) (omega arith)

-- Field by field.
abbrev pub Same : List Scale → List Scale → Type 0
Same (x ∷ xs) (y ∷ ys) = (encode_field x ≡ encode_field y) × Same xs ys
Same _ _ = Unit

pub encode-Same : (xs ys : List Scale) → encode xs ≡ encode ys → Same xs ys
encode-Same [] [] e = tt
encode-Same [] (y ∷ ys) e = tt
encode-Same (x ∷ xs) [] e = tt
encode-Same (x ∷ xs) (y ∷ ys) e =
    let (same, rest) = encode_injective x y xs ys e in (same, encode-Same xs ys rest)

pub tagged_injective : (t m n : ℕ) → pair t m ≡ pair t n → m ≡ n
tagged_injective t m n e = (pair_injective t m t n e).1

pub domain-injective : (c d : DomainId) → encode_field (domain c) ≡ encode_field (domain d) → c ≡ d
domain-injective c d e = index_injective c d (tagged_injective 7 (index c) (index d) e)

pub domains-injective :
    (cs ds : List DomainId) → encode_field (domains cs) ≡ encode_field (domains ds) → cs ≡ ds
domains-injective cs ds e =
    encode_domains-injective cs ds (tagged_injective 8 (encode_domains cs) (encode_domains ds) e)

pub tag_injective : (t u m n : ℕ) → pair t m ≡ pair u n → t ≡ u
tag_injective t u m n e = (pair_injective t m u n e).0

instance abbrev pub hasher : Hasher
hasher = record { blake2_256 = encode }

pub hasher-distinct : (d : DomainId) → IdsAreDistinct hasher d
unfolding export_id
hasher-distinct d m n _ _ e =
    let (_, rest) = encode_injective (domain d) (domain d) (u64 m ∷ []) (u64 n ∷ []) e in
    let (same, _) = encode_injective (u64 m) (u64 n) [] [] rest in tagged_injective 3 m n same

abbrev pub accounts : Accounts
accounts = record { to_bytes = λ a. a; from_bytes = λ b. some b }

pub accounts-laws : AccountsLaws accounts
accounts-laws = record { from_to = λ a. refl }

-- Balances as a map of free and held funds.
pub record Wallet : Type 0 where
  pub free : ℕ
  pub held : ℕ

abbrev pub wallet_of : Map ℕ Wallet → ℕ → Wallet
wallet_of b a = or_default (record { free = 0; held = 0 }) (get b a)

abbrev pub wealth : Wallet → ℕ
wealth w = w.free + w.held

abbrev pub currency : Currency (Map ℕ Wallet)
currency = record {
  on_hold = λ b a. (wallet_of b a).held;
  total_issuance = weight wealth;
  hold = λ b a n.
      let w = wallet_of b a in
      if leb n w.free
      then some (insert b a (record { free = w.free - n; held = w.held + n }))
      else none;
  burn_held = λ b a n.
      let w = wallet_of b a in
      if leb n w.held then some (insert b a (record w { held = w.held - n })) else none;
  mint_into = λ b a n. let w = wallet_of b a in some (insert b a (record w { free = w.free + n }));
}

pub currency-laws : CurrencyLaws currency
currency-laws = record {
  hold-on_hold = λ b b' a x n e.
      let w = wallet_of b a in
      ground (
        arith,
        get-insert b a x (record { free = w.free - n; held = w.held + n }),
        nat_beq_iff a x,
      );
  hold-total_issuance = λ b b' a n e.
      let w = wallet_of b a in
      ground (arith, weight-insert wealth b a (record { free = w.free - n; held = w.held + n }));
  mint_into-on_hold = λ b b' a x n e.
      let w = wallet_of b a in
      ground (arith, get-insert b a x (record w { free = w.free + n }), nat_beq_iff a x);
  mint_into-total_issuance = λ b b' a n e.
      let w = wallet_of b a in
      ground (arith, weight-insert wealth b a (record w { free = w.free + n }));
  burn_held-on_hold = λ b b' a x n e.
      let w = wallet_of b a in
      ground (arith, get-insert b a x (record w { held = w.held - n }), nat_beq_iff a x);
  burn_held-total_issuance = λ b b' a n e.
      let w = wallet_of b a in
      ground (arith, weight-insert wealth b a (record w { held = w.held - n }));
  burn_held_succeeds = λ b a n le.
      let w = wallet_of b a in (insert b a (record w { held = w.held - n }), ground arith);
}
