-- ===== src/Types/Scale.antt =====
-- Domains, hashes and what is hashed. `blake2_256` and the SCALE encoding are crates outside the
-- repository: a `Hasher` is the hash of the encoding of a tuple, and a `Scale` value is one field
-- of that tuple with its width. A `[u8; 32]` is the number that its bytes spell, the most
-- significant byte first, so that the order of arrays is the order of numbers.
use interplanetary_asynchron.Prelude.{
  ℕ, String, ◌≡◌, ◌↔◌, Bool, true, List, Option, none, some, Eq, nat_beq, arith, Ordering, compare,
  if◌then◌else◌,
}
use text.Mathlib.Text.{◌==◌ as str_eq}

pub data DomainId : Type 0 where
  earth moon mars : DomainId

-- The derived `Ord` compares the positions in the declaration.
abbrev pub index : DomainId → ℕ
index earth = 0
index moon = 1
index mars = 2

abbrev pub domain_beq : DomainId → DomainId → Bool
domain_beq a b = nat_beq (index a) (index b)

pub domain_beq_iff : (a b : DomainId) → (domain_beq a b ≡ true) ↔ (a ≡ b)
domain_beq_iff a b = ((λ h. ground arith), (λ h. ground arith))

instance abbrev pub domain_eq : Eq DomainId
domain_eq = record { beq = domain_beq; beq_iff = domain_beq_iff }

abbrev pub domain_compare : DomainId → DomainId → Ordering
domain_compare a b = compare (index a) (index b)

unfoldable pub as_str : DomainId → String
as_str earth = "earth"
as_str moon = "moon"
as_str mars = "mars"

unfoldable pub from_str : String → Option DomainId
from_str value =
    if str_eq value "earth"
    then some earth
    else if str_eq value "moon"
    then some moon
    else if str_eq value "mars"
    then some mars
    else none

abbrev pub Hash : Type 0
Hash = ℕ

abbrev pub ExportId : Type 0
ExportId = Hash

abbrev pub AccountIdBytes : Type 0
AccountIdBytes = Hash

-- `T::AccountId`.
abbrev pub AccountId : Type 0
AccountId = ℕ

abbrev pub EpochId : Type 0
EpochId = ℕ

abbrev pub empty_hash : Hash
empty_hash = 0

pub data Scale : Type 0 where
  u8 u16 u32 u64 u128 : ℕ → Scale
  bytes : Hash → Scale
  str : String → Scale
  domain : DomainId → Scale
  domains : List DomainId → Scale

pub record Hasher : Type 0 where
  pub blake2_256 : List Scale → Hash

abbrev pub blake2_256 : ⦃h : Hasher⦄ → List Scale → Hash
blake2_256 ⦃h⦄ = h.blake2_256

-- `saturating_add` and its like at a bound of `2 ^ w - 1`.
abbrev pub u32_max : ℕ
u32_max = 0xffffffff

abbrev pub u64_max : ℕ
u64_max = 0xffffffffffffffff

abbrev pub u128_max : ℕ
u128_max = 0xffffffffffffffffffffffffffffffff
