-- ===== src/Types/Summary.antt =====
-- The header that summarises an epoch.
use interplanetary_asynchron.Prelude.{ℕ, [], ◌∷◌}
use interplanetary_asynchron.Types.Scale.{
  DomainId, Hash, EpochId, Hasher, blake2_256, u16, u32, u64, bytes, domain,
}

abbrev pub epoch_summary_version : ℕ
epoch_summary_version = 1

pub record EpochSummaryHashInput : Type 0 where
  pub version : ℕ
  pub domain_id : DomainId
  pub epoch_id : EpochId
  pub prev_summary_hash : Hash
  pub start_block_height : ℕ
  pub end_block_height : ℕ
  pub state_root : Hash
  pub block_root : Hash
  pub tx_root : Hash
  pub event_root : Hash
  pub export_root : Hash
  pub import_root : Hash
  pub governance_root : Hash
  pub validator_set_hash : Hash

unfoldable pub summary_hash : ⦃h : Hasher⦄ → EpochSummaryHashInput → Hash
summary_hash input = blake2_256 (
    u16 input.version
    ∷ domain input.domain_id
    ∷ u64 input.epoch_id
    ∷ bytes input.prev_summary_hash
    ∷ u32 input.start_block_height
    ∷ u32 input.end_block_height
    ∷ bytes input.state_root
    ∷ bytes input.block_root
    ∷ bytes input.tx_root
    ∷ bytes input.event_root
    ∷ bytes input.export_root
    ∷ bytes input.import_root
    ∷ bytes input.governance_root
    ∷ bytes input.validator_set_hash
    ∷ [])

pub record EpochSummaryHeader : Type 0 where
  pub version : ℕ
  pub domain_id : DomainId
  pub epoch_id : EpochId
  pub prev_summary_hash : Hash
  pub start_block_height : ℕ
  pub end_block_height : ℕ
  pub state_root : Hash
  pub block_root : Hash
  pub tx_root : Hash
  pub event_root : Hash
  pub export_root : Hash
  pub import_root : Hash
  pub governance_root : Hash
  pub validator_set_hash : Hash
  pub summary_hash : Hash

abbrev pub from_hash_input : ⦃h : Hasher⦄ → EpochSummaryHashInput → EpochSummaryHeader
from_hash_input input = record {
  version = input.version;
  domain_id = input.domain_id;
  epoch_id = input.epoch_id;
  prev_summary_hash = input.prev_summary_hash;
  start_block_height = input.start_block_height;
  end_block_height = input.end_block_height;
  state_root = input.state_root;
  block_root = input.block_root;
  tx_root = input.tx_root;
  event_root = input.event_root;
  export_root = input.export_root;
  import_root = input.import_root;
  governance_root = input.governance_root;
  validator_set_hash = input.validator_set_hash;
  summary_hash = summary_hash input;
}

abbrev pub hash_input : EpochSummaryHeader → EpochSummaryHashInput
hash_input leaf = record {
  version = leaf.version;
  domain_id = leaf.domain_id;
  epoch_id = leaf.epoch_id;
  prev_summary_hash = leaf.prev_summary_hash;
  start_block_height = leaf.start_block_height;
  end_block_height = leaf.end_block_height;
  state_root = leaf.state_root;
  block_root = leaf.block_root;
  tx_root = leaf.tx_root;
  event_root = leaf.event_root;
  export_root = leaf.export_root;
  import_root = leaf.import_root;
  governance_root = leaf.governance_root;
  validator_set_hash = leaf.validator_set_hash;
}

abbrev pub compute_summary_hash : ⦃h : Hasher⦄ → EpochSummaryHeader → Hash
compute_summary_hash header = summary_hash (hash_input header)

pub record StagedSummaryRecord : Type 0 where
  pub header : EpochSummaryHeader
  pub staged_at_block_number : ℕ
