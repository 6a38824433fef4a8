-- ===== src/Types/Export.antt =====
-- Export leaves, their records, and what is claimed of them on the other chain.
use interplanetary_asynchron.Prelude.{ℕ, Option, [], ◌∷◌, Bool, true, false}
use interplanetary_asynchron.Types.Scale.{
  DomainId, Hash, ExportId, AccountIdBytes, EpochId, Hasher, blake2_256, u16, u32, u64, u128, bytes,
  domain,
}

abbrev pub export_leaf_version : ℕ
export_leaf_version = 1

pub data ExportStatus : Type 0 where
  local_final exported remote_finalized : ExportStatus

abbrev pub export_status_beq : ExportStatus → ExportStatus → Bool
export_status_beq local_final local_final = true
export_status_beq exported exported = true
export_status_beq remote_finalized remote_finalized = true
export_status_beq _ _ = false

pub record ExportLeafHashInput : Type 0 where
  pub version : ℕ
  pub export_id : ExportId
  pub source_domain : DomainId
  pub target_domain : DomainId
  pub sender : AccountIdBytes
  pub recipient : AccountIdBytes
  pub amount : ℕ
  pub source_epoch_id : EpochId
  pub source_block_height : ℕ
  pub extrinsic_index : ℕ

unfoldable pub export_hash : ⦃h : Hasher⦄ → ExportLeafHashInput → Hash
export_hash input = blake2_256 (
    u16 input.version
    ∷ bytes input.export_id
    ∷ domain input.source_domain
    ∷ domain input.target_domain
    ∷ bytes input.sender
    ∷ bytes input.recipient
    ∷ u128 input.amount
    ∷ u64 input.source_epoch_id
    ∷ u32 input.source_block_height
    ∷ u32 input.extrinsic_index
    ∷ [])

pub record ExportLeaf : Type 0 where
  pub version : ℕ
  pub export_id : ExportId
  pub source_domain : DomainId
  pub target_domain : DomainId
  pub sender : AccountIdBytes
  pub recipient : AccountIdBytes
  pub amount : ℕ
  pub source_epoch_id : EpochId
  pub source_block_height : ℕ
  pub extrinsic_index : ℕ
  pub export_hash : Hash

abbrev pub from_hash_input : ⦃h : Hasher⦄ → ExportLeafHashInput → ExportLeaf
from_hash_input input = record {
  version = input.version;
  export_id = input.export_id;
  source_domain = input.source_domain;
  target_domain = input.target_domain;
  sender = input.sender;
  recipient = input.recipient;
  amount = input.amount;
  source_epoch_id = input.source_epoch_id;
  source_block_height = input.source_block_height;
  extrinsic_index = input.extrinsic_index;
  export_hash = export_hash input;
}

abbrev pub hash_input : ExportLeaf → ExportLeafHashInput
hash_input leaf = record {
  version = leaf.version;
  export_id = leaf.export_id;
  source_domain = leaf.source_domain;
  target_domain = leaf.target_domain;
  sender = leaf.sender;
  recipient = leaf.recipient;
  amount = leaf.amount;
  source_epoch_id = leaf.source_epoch_id;
  source_block_height = leaf.source_block_height;
  extrinsic_index = leaf.extrinsic_index;
}

abbrev pub compute_export_hash : ⦃h : Hasher⦄ → ExportLeaf → Hash
compute_export_hash leaf = export_hash (hash_input leaf)

pub record ExportRecord : Type 0 where
  pub leaf : ExportLeaf
  pub status : ExportStatus
  pub completion_summary_hash : Option Hash
  pub completion_package_hash : Option Hash
  pub resolved_at_source_block_height : Option ℕ
  pub resolver_account : Option AccountIdBytes

pub record RemoteFinalizationClaim : Type 0 where
  pub version : ℕ
  pub export_id : ExportId
  pub source_domain : DomainId
  pub target_domain : DomainId
  pub source_epoch_id : EpochId
  pub recipient : AccountIdBytes
  pub amount : ℕ
  pub completion_summary_hash : Hash
  pub completion_package_hash : Hash

-- The identifier of a domain's export with a sequence number.
unfoldable pub export_id : ⦃h : Hasher⦄ → DomainId → ℕ → ExportId
export_id source_domain export_sequence =
    blake2_256 (domain source_domain ∷ u64 export_sequence ∷ [])
