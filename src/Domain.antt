-- ===== src/Domain.antt =====
-- chain/pallets/domain/src/lib.rs: the chain's identity, which is announced once.
use interplanetary_asynchron.Prelude.{
  ℕ, ◌≡◌, refl, Bool, true, false, ◌||◌, not, List, [], ◌∷◌, ◌++◌, nat_beq, if◌then◌else◌,
  Bool-cases, inl, inr,
}
use interplanetary_asynchron.Types.Scale.{DomainId}

-- A `[u8; N]` is the list of its bytes.
pub record ChainIdentity : Type 0 where
  pub domain_id : DomainId
  pub chain_id : List ℕ
  pub chain_name : List ℕ
  pub token_symbol : List ℕ
  pub token_decimals : ℕ

pub data Event : Type 0 where
  domain_identity_activated : DomainId → List ℕ → Event

pub record Storage : Type 0 where
  pub chain_identity : ChainIdentity
  pub configured_domain_id : DomainId
  pub is_announced : Bool
  pub events : List Event

-- `GenesisConfig::build` on empty storage.
abbrev pub genesis : ChainIdentity → Storage
genesis identity = record {
  chain_identity = identity;
  configured_domain_id = identity.domain_id;
  is_announced = false;
  events = [];
}

unfoldable pub on_initialize : ℕ → Storage → Storage
on_initialize block_number s = if nat_beq block_number 0 || s.is_announced then s else record s {
  events =
      s.events
      ++ domain_identity_activated s.chain_identity.domain_id s.chain_identity.chain_id ∷ [];
  is_announced = true;
}

-- The hook in the blocks of a chain.
unfoldable pub open_all : List ℕ → Storage → Storage
open_all [] s = s
open_all (block_number ∷ rest) s = open_all rest (on_initialize block_number s)

-- Whether the chain has left its genesis block.
abbrev pub is_any_positive : List ℕ → Bool
is_any_positive [] = false
is_any_positive (block_number ∷ rest) = not (nat_beq block_number 0) || is_any_positive rest

abbrev pub announced : ChainIdentity → Storage
announced identity = record (genesis identity) {
  is_announced = true;
  events = domain_identity_activated identity.domain_id identity.chain_id ∷ [];
}

open_all-announced :
    (identity : ChainIdentity) (numbers : List ℕ)
    → open_all numbers (announced identity) ≡ announced identity
unfolding open_all on_initialize
open_all-announced identity [] = refl
open_all-announced identity (block_number ∷ rest) = elim (Bool-cases (nat_beq block_number 0)) [
  | inl y ↦ rw y (open_all-announced identity rest)
  | inr n ↦ rw n (open_all-announced identity rest)
]

-- Whatever blocks a chain opens from genesis, its identity is announced exactly once, by the first
-- block after the genesis block, and the configured domain stays that of the identity.
pub open_all-once :
    (identity : ChainIdentity) (numbers : List ℕ)
    → open_all numbers (genesis identity)
      ≡ (if is_any_positive numbers then announced identity else genesis identity)
unfolding open_all on_initialize
open_all-once identity [] = refl
open_all-once identity (n ∷ rest) = elim (Bool-cases (nat_beq n 0)) [
  | inl y ↦ rw y (open_all-once identity rest)
  | inr later ↦ rw later (open_all-announced identity rest)
]
