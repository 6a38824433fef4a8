-- ===== src/Transfers/Config.antt =====
-- What the pallet takes from its runtime: the origin of a call, the block that it runs in, the
-- codec of account ids, and the currency. `pallet_balances` and the codec are outside the
-- repository; `CurrencyLaws` and `AccountsLaws` say what the pallet relies on.
use interplanetary_asynchron.Prelude.{
  ℕ, ◌+◌, ◌≤◌, min, ◌≡◌, Option, some, nat_beq, if◌then◌else◌, nat_eq, pair_eq,
}
use interplanetary_asynchron.Types.Scale.{
  DomainId, domain_eq, AccountIdBytes, AccountId, EpochId, u32_max,
}

pub data Origin : Type 0 where
  signed : AccountId → Origin
  unsigned : Origin

-- `T::DomainIdentity::domain_id()`, `T::EpochInfo::current_epoch()`, and the system pallet's block
-- number and extrinsic index.
pub record Env : Type 0 where
  pub domain_id : DomainId
  pub current_epoch : EpochId
  pub block_number : ℕ
  pub extrinsic_index : Option ℕ

-- `SaturatedConversion` into `u32`.
abbrev pub saturated_into_u32 : ℕ → ℕ
saturated_into_u32 n = min n u32_max

-- `account_to_bytes` and `account_from_bytes`: the SCALE encoding of an account id in 32 bytes.
pub record Accounts : Type 0 where
  pub to_bytes : AccountId → AccountIdBytes
  pub from_bytes : AccountIdBytes → Option AccountId

pub record AccountsLaws (accounts : Accounts) : Type 0 where
  pub from_to : (a : AccountId) → accounts.from_bytes (accounts.to_bytes a) ≡ some a

-- The fungible traits `InspectHold`, `Mutate` and `MutateHold`, with holds for the reason
-- `CrossDomainTransfer`. `none` is a dispatch error. `burn_held` burns exactly the amount.
pub record Currency (B : Type 0) : Type 0 where
  pub on_hold : B → AccountId → ℕ
  pub total_issuance : B → ℕ
  pub hold : B → AccountId → ℕ → Option B
  pub burn_held : B → AccountId → ℕ → Option B
  pub mint_into : B → AccountId → ℕ → Option B

-- A hold moves funds of one account, a mint adds to the issuance and touches no hold, and a burn
-- of held funds succeeds if that much is on hold and takes it from the hold and the issuance.
pub record CurrencyLaws {B : Type 0} (c : Currency B) : Type 0 where
  pub hold-on_hold :
      (b b' : B) (a x : AccountId) (n : ℕ)
      → c.hold b a n ≡ some b'
      → c.on_hold b' x ≡ (if nat_beq a x then c.on_hold b x + n else c.on_hold b x)
  pub hold-total_issuance :
      (b b' : B) (a : AccountId) (n : ℕ)
      → c.hold b a n ≡ some b'
      → c.total_issuance b' ≡ c.total_issuance b
  pub mint_into-on_hold :
      (b b' : B) (a x : AccountId) (n : ℕ)
      → c.mint_into b a n ≡ some b'
      → c.on_hold b' x ≡ c.on_hold b x
  pub mint_into-total_issuance :
      (b b' : B) (a : AccountId) (n : ℕ)
      → c.mint_into b a n ≡ some b'
      → c.total_issuance b' ≡ c.total_issuance b + n
  pub burn_held-on_hold :
      (b b' : B) (a x : AccountId) (n : ℕ)
      → c.burn_held b a n ≡ some b'
      → c.on_hold b x ≡ (if nat_beq a x then c.on_hold b' x + n else c.on_hold b' x)
  pub burn_held-total_issuance :
      (b b' : B) (a : AccountId) (n : ℕ)
      → c.burn_held b a n ≡ some b'
      → c.total_issuance b ≡ c.total_issuance b' + n
  pub burn_held_succeeds :
      (b : B) (a : AccountId) (n : ℕ) → n ≤ c.on_hold b a → (b' : B) × (c.burn_held b a n ≡ some b')
