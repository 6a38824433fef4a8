-- ===== src/Epochs/State.antt =====
-- The storage of chain/pallets/epochs, its events, and what it asks of the runtime.
use interplanetary_asynchron.Prelude.{
  ℕ, max, Bool, true, false, Option, none, List, [], ◌∷◌, ◌++◌, nat_eq, pair_eq,
}
use interplanetary_asynchron.Prelude.Map.{Map}
use interplanetary_asynchron.Types.Scale.{DomainId, domain_eq, Hash, EpochId, empty_hash}
use interplanetary_asynchron.Types.Summary.{EpochSummaryHeader}

pub data SummarySlotStatus : Type 0 where
  reserved staged : SummarySlotStatus

abbrev pub slot_status_beq : SummarySlotStatus → SummarySlotStatus → Bool
slot_status_beq reserved reserved = true
slot_status_beq staged staged = true
slot_status_beq _ _ = false

pub record PendingBlockObservation : Type 0 where
  pub block_number : ℕ
  pub state_root : Hash
  pub extrinsic_count : ℕ
  pub all_extrinsics_len : ℕ
  pub event_count : ℕ

pub record EpochAccumulators : Type 0 where
  pub state_root : Hash
  pub block_root : Hash
  pub tx_root : Hash
  pub event_root : Hash
  pub blocks_observed : ℕ
  pub last_observed_block : ℕ

pub record SummarySlotRecord : Type 0 where
  pub epoch_id : EpochId
  pub start_height : ℕ
  pub end_height : Option ℕ
  pub reserved_at_block : ℕ
  pub staged_at_block_number : Option ℕ
  pub last_touched_block : ℕ
  pub header : Option EpochSummaryHeader
  pub status : SummarySlotStatus
  pub accumulators : EpochAccumulators

pub data Event : Type 0 where
  epoch_closed : EpochId → ℕ → ℕ → Event
  summary_slot_reserved : EpochId → Event
  epoch_summary_created : EpochId → ℕ → Hash → Event
  summary_hash_committed : EpochId → Hash → Hash → Event

pub record Storage : Type 0 where
  pub epoch_length_blocks : ℕ
  pub current_epoch : EpochId
  pub current_epoch_start : ℕ
  pub summary_slots : Map EpochId SummarySlotRecord
  pub summary_headers : Map EpochId EpochSummaryHeader
  pub latest_summary_header : Option EpochSummaryHeader
  pub latest_summary_hash : Hash
  pub summary_count : ℕ
  pub pending_block_observation : Option PendingBlockObservation
  pub is_initialized : Bool
  pub events : List Event

abbrev pub default_epoch_length_blocks : ℕ
default_epoch_length_blocks = 300

-- `GenesisConfig::build` on empty storage.
abbrev pub genesis : ℕ → Storage
genesis epoch_length_blocks = record {
  epoch_length_blocks = max epoch_length_blocks 1;
  current_epoch = 0;
  current_epoch_start = 1;
  summary_slots = [];
  summary_headers = [];
  latest_summary_header = none;
  latest_summary_hash = empty_hash;
  summary_count = 0;
  pending_block_observation = none;
  is_initialized = false;
  events = [];
}

abbrev pub deposit_event : Event → Storage → Storage
deposit_event event s = record s { events = s.events ++ event ∷ [] }

-- `SummaryContext` and the system pallet in one block: `parent_hash` is read when the block opens,
-- the rest of the block's figures when it is finalized.
pub record Context : Type 0 where
  pub domain_id : DomainId
  pub validator_set_hash : Hash
  pub parent_hash : Hash
  pub storage_root : Hash
  pub extrinsic_count : ℕ
  pub all_extrinsics_len : ℕ
  pub event_count : ℕ

-- The three commitment providers, on the state of the pallets behind them.
pub record Providers (P : Type 0) : Type 0 where
  pub commit_epoch_exports : EpochId → ℕ → ℕ → P → Hash × P
  pub commit_epoch_imports : EpochId → ℕ → ℕ → P → Hash × P
  pub commit_epoch_governance : EpochId → ℕ → ℕ → P → Hash × P
