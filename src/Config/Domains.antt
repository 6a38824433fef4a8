-- ===== src/Config/Domains.antt =====
-- The configuration of a domain: `validate`, the length of an epoch in blocks, and the identity
-- that the chain starts with. A Rust `u8` or `u16` field is a number below 2 ^ 8 or 2 ^ 16; nothing
-- here depends on that.
use mathlib.Core.Option
use interplanetary_asynchron.Prelude.{
  length-append, ℕ, zero, suc, ◌+◌, ◌-◌, ◌*◌, ◌/◌, ◌^◌, ◌≤◌, ◌<◌, ◌≡◌, refl, ap, ◌↔◌, Bool, true,
  false, not, ◌||◌, Option, none, some, List, [], ◌∷◌, ◌++◌, arith, length, is_empty, contains, ltb,
  leb, nat_beq, if◌then◌else◌, ◌==◌, nat_eq, pair_eq,
}
use interplanetary_asynchron.Config.Text.{Text, is_blank, as_bytes, byte_len, text_eq}
use interplanetary_asynchron.Prelude.Outcome.{
  Outcome, ok, ◌>>=◌, ◌>>◌, ensure, ok_or, for_each, ensure-ok,
}
use interplanetary_asynchron.Domain.{ChainIdentity}
use interplanetary_asynchron.Types.Scale.{DomainId, domain_beq_iff, domain_eq, u32_max, u64_max}

pub data DomainChainType : Type 0 where
  development local live : DomainChainType

pub record TokenConfig : Type 0 where
  pub symbol : Text
  pub decimals : ℕ

pub record NetworkConfig : Type 0 where
  pub p2p_port : ℕ
  pub rpc_port : ℕ
  pub prometheus_port : ℕ
  pub bootnodes : List Text

pub record EpochConfig : Type 0 where
  pub length_seconds : ℕ

pub record AuthorityConfig : Type 0 where
  pub name : Text
  pub account_seed : Text
  pub aura_seed : Text
  pub grandpa_seed : Text

pub record BootstrapConfig : Type 0 where
  pub sudo_account_seed : Text
  pub importer_account_seed : Text
  pub endowed_accounts : List Text

pub record DomainConfig : Type 0 where
  pub domain_id : DomainId
  pub chain_name : Text
  pub chain_id : Text
  pub chain_type : DomainChainType
  pub token : TokenConfig
  pub network : NetworkConfig
  pub epoch : EpochConfig
  pub authorities : List AuthorityConfig
  pub bootstrap : BootstrapConfig

-- `ConfigError::Validation` by its message.
pub data DomainError : Type 0 where
  wrong_domain : DomainId → DomainId → DomainError
  empty_chain_name long_chain_name empty_chain_id long_chain_id : DomainError
  empty_token_symbol long_token_symbol zero_epoch_length no_authority no_endowed_account :
      DomainError
  zero_port overlapping_ports empty_authority_name empty_authority_seed : DomainError
  empty_endowed_account empty_sudo_seed empty_importer_seed : DomainError
  invalid_bootnode bootnode_without_peer : Text → DomainError
  epoch_length_overflow epoch_below_one_block epoch_above_u32 : DomainError

abbrev pub chain_id_bytes : ℕ
chain_id_bytes = 64

abbrev pub chain_name_bytes : ℕ
chain_name_bytes = 64

abbrev pub token_symbol_bytes : ℕ
token_symbol_bytes = 16

unfoldable pub validate_authority : AuthorityConfig → Outcome DomainError (Unit {0})
validate_authority authority = do
  ensure (not (is_blank authority.name)) empty_authority_name
  for_each (λ value. ensure (not (is_blank value)) empty_authority_seed)
      (authority.account_seed ∷ authority.aura_seed ∷ authority.grandpa_seed ∷ [])

abbrev pub any : {A : Type 0} → (A → Bool) → List A → Bool
any p [] = false
any p (x ∷ xs) = p x || any p xs

-- `Multiaddr::from_str` is outside the repository: it gives the components of an address, of which
-- only whether each is a /p2p component matters here, or fails.
module _ (multiaddr : Text → Option (List Bool)) where
  unfoldable pub validate_bootnode : Text → Outcome DomainError (Unit {0})
  validate_bootnode bootnode = do
    parsed ← ok_or (multiaddr bootnode) (invalid_bootnode bootnode)
    ensure (any (λ is_p2p. is_p2p) parsed) (bootnode_without_peer bootnode)

  unfoldable pub validate : DomainConfig → DomainId → Outcome DomainError (Unit {0})
  validate config expected_domain = do
    ensure (config.domain_id == expected_domain) (wrong_domain config.domain_id expected_domain)
    ensure (not (is_blank config.chain_name)) empty_chain_name
    ensure (not (ltb chain_name_bytes (byte_len config.chain_name))) long_chain_name
    ensure (not (is_blank config.chain_id)) empty_chain_id
    ensure (not (ltb chain_id_bytes (byte_len config.chain_id))) long_chain_id
    ensure (not (is_blank config.token.symbol)) empty_token_symbol
    ensure (not (ltb token_symbol_bytes (byte_len config.token.symbol))) long_token_symbol
    ensure (not (nat_beq config.epoch.length_seconds 0)) zero_epoch_length
    ensure (not (is_empty config.authorities)) no_authority
    ensure (not (is_empty config.bootstrap.endowed_accounts)) no_endowed_account
    let ports =
        config.network.p2p_port ∷ config.network.rpc_port ∷ config.network.prometheus_port ∷ []
    ensure (not (contains ports 0)) zero_port
    ensure
        (not (
          nat_beq config.network.p2p_port config.network.rpc_port
          || (nat_beq config.network.p2p_port config.network.prometheus_port
              || nat_beq config.network.rpc_port config.network.prometheus_port)))
        overlapping_ports
    for_each validate_authority config.authorities
    for_each (λ seed. ensure (not (is_blank seed)) empty_endowed_account)
        config.bootstrap.endowed_accounts
    ensure (not (is_blank config.bootstrap.sudo_account_seed)) empty_sudo_seed
    ensure (not (is_blank config.bootstrap.importer_account_seed)) empty_importer_seed
    for_each validate_bootnode config.network.bootnodes

-- `checked_mul` in `u64`, a division, and `u32::try_from`. A division by zero panics; the callers
-- divide by the runtime's constant.
unfoldable pub epoch_length_blocks : DomainConfig → ℕ → Outcome DomainError ℕ
epoch_length_blocks config millis_per_block = do
  ensure (leb (config.epoch.length_seconds * 1000) u64_max) epoch_length_overflow
  let blocks = config.epoch.length_seconds * 1000 / millis_per_block
  ensure (not (nat_beq blocks 0)) epoch_below_one_block
  ensure (leb blocks u32_max) epoch_above_u32
  ok blocks

abbrev pub zeros : ℕ → List ℕ
zeros zero = []
zeros (suc n) = 0 ∷ zeros n

-- `fixed_bytes::<N>`; `none` is the panic of a slice that ends beyond the array.
unfoldable pub fixed_bytes : ℕ → List ℕ → Option (List ℕ)
fixed_bytes n value =
    if leb (length value) n then some (value ++ zeros (n - length value)) else none

abbrev identity_of : DomainConfig → List ℕ → List ℕ → List ℕ → ChainIdentity
identity_of config chain_id chain_name token_symbol = record {
  domain_id = config.domain_id;
  chain_id = chain_id;
  chain_name = chain_name;
  token_symbol = token_symbol;
  token_decimals = config.token.decimals;
}

unfoldable pub build_chain_identity : DomainConfig → Option ChainIdentity
build_chain_identity config = elim (fixed_bytes chain_id_bytes (as_bytes config.chain_id)) [
  | none ↦ none
  | some chain_id ↦ elim (fixed_bytes chain_name_bytes (as_bytes config.chain_name)) [
    | none ↦ none
    | some chain_name ↦
        Option.map (identity_of config chain_id chain_name)
          (fixed_bytes token_symbol_bytes (as_bytes config.token.symbol))
  ]
]

length-zeros : (n : ℕ) → length (zeros n) ≡ n
length-zeros zero = refl
length-zeros (suc n) = ap suc (length-zeros n)

fixed_bytes-fits :
    (n : ℕ) (value : List ℕ)
    → length value ≤ n
    → (out : List ℕ) × (fixed_bytes n value ≡ some out) × (length out ≡ n)
unfolding fixed_bytes
fixed_bytes-fits n value short =
    let leb_true : leb (length value) n ≡ true = ground arith in
    (
      value ++ zeros (n - length value),
      rw leb_true refl,
      omega
          (arith, length-append value (zeros (n - length value)), length-zeros (n - length value)),
    )

identity_built :
    (config : DomainConfig) (chain_id chain_name token_symbol : List ℕ)
    → fixed_bytes chain_id_bytes (as_bytes config.chain_id) ≡ some chain_id
    → fixed_bytes chain_name_bytes (as_bytes config.chain_name) ≡ some chain_name
    → fixed_bytes token_symbol_bytes (as_bytes config.token.symbol) ≡ some token_symbol
    → build_chain_identity config ≡ some (identity_of config chain_id chain_name token_symbol)
unfolding build_chain_identity
identity_built config chain_id chain_name token_symbol p q r = ground arith

-- A configuration that passes validation for a domain gives an identity of that domain without a
-- panic, with the three names in arrays of 64, 64 and 16 bytes.
pub build_chain_identity-total :
    (multiaddr : Text → Option (List Bool)) (config : DomainConfig) (d : DomainId)
    → validate multiaddr config d ≡ ok tt
    → (identity : ChainIdentity) × (build_chain_identity config ≡ some identity)
      × (identity.domain_id ≡ d)
      × (length identity.chain_id ≡ 64)
      × (length identity.chain_name ≡ 64)
      × (length identity.token_symbol ≡ 16)
unfolding validate
build_chain_identity-total multiaddr config d h =
    let (same, h1) = ensure-ok _ _ _ _ h in
    let (_, h2) = ensure-ok _ _ _ _ h1 in
    let (name_fits, h3) = ensure-ok _ _ _ _ h2 in
    let (_, h4) = ensure-ok _ _ _ _ h3 in
    let (id_fits, h5) = ensure-ok _ _ _ _ h4 in
    let (_, h6) = ensure-ok _ _ _ _ h5 in
    let (symbol_fits, h7) = ensure-ok _ _ _ _ h6 in
    let (chain_id, id_at, id_length) =
      fixed_bytes-fits chain_id_bytes (as_bytes config.chain_id) (ground arith) in
    let (chain_name, name_at, name_length) =
      fixed_bytes-fits chain_name_bytes (as_bytes config.chain_name) (ground arith) in
    let (symbol, symbol_at, symbol_length) =
      fixed_bytes-fits token_symbol_bytes (as_bytes config.token.symbol) (ground arith) in
    (
      identity_of config chain_id chain_name symbol,
      identity_built config chain_id chain_name symbol id_at name_at symbol_at,
      ground (arith, domain_beq_iff config.domain_id d),
      id_length,
      name_length,
      symbol_length,
    )

div-bounds : (n m : ℕ) → 0 < m → (n / m * m ≤ n) × (n < (n / m + 1) * m)
div-bounds n m positive = grind arith

eq-div : (n m b : ℕ) → 0 < m → b * m ≤ n → n < (b + 1) * m → n / m ≡ b
eq-div n m b positive low high = grind (arith, div-bounds n m)

-- For a block time that is not zero, and an epoch whose milliseconds fit into a u64, the computation
-- gives a number exactly if that number is positive and below 2 ^ 32 and that many blocks are the
-- longest run that does not outlast the configured seconds.
pub epoch_length_blocks-exact :
    (config : DomainConfig) (millis_per_block : ℕ)
    → 0 < millis_per_block
    → config.epoch.length_seconds * 1000 < 2 ^ 64
    → (blocks : ℕ)
    → (epoch_length_blocks config millis_per_block ≡ ok blocks) ↔ (
        (0 < blocks)
        × (blocks < 2 ^ 32)
        × (blocks * millis_per_block ≤ config.epoch.length_seconds * 1000)
        × (config.epoch.length_seconds * 1000 < (blocks + 1) * millis_per_block))
unfolding epoch_length_blocks ensure ◌>>◌ ◌>>=◌
epoch_length_blocks-exact config millis_per_block positive fits blocks =
    let n = config.epoch.length_seconds * 1000 in
    let bounds = div-bounds n millis_per_block positive in
    (
      (λ h. ground arith),
      (λ (low, below, lower, upper).
          ground (arith, eq-div n millis_per_block blocks positive lower upper)),
    )
