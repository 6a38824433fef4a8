-- ===== src/Types/Import.antt =====
-- Imports as the receiving chain records them, and the leaves of those that it finalized.
use interplanetary_asynchron.Prelude.{
  ℕ, Option, none, some, [], ◌∷◌, Bool, true, false, not, if◌then◌else◌,
}
use interplanetary_asynchron.Types.Scale.{
  DomainId, Hash, ExportId, AccountIdBytes, EpochId, Hasher, blake2_256, u16, u64, u128, bytes,
  domain,
}

abbrev pub observed_import_version : ℕ
observed_import_version = 1

abbrev pub finalized_import_leaf_version : ℕ
finalized_import_leaf_version = 1

pub data ImportObservationStatus : Type 0 where
  remote_observed remote_finalized : ImportObservationStatus

abbrev pub import_status_beq : ImportObservationStatus → ImportObservationStatus → Bool
import_status_beq remote_observed remote_observed = true
import_status_beq remote_finalized remote_finalized = true
import_status_beq _ _ = false

pub record FinalizedImportLeafHashInput : Type 0 where
  pub version : ℕ
  pub export_id : ExportId
  pub source_domain : DomainId
  pub target_domain : DomainId
  pub recipient : AccountIdBytes
  pub amount : ℕ
  pub source_epoch_id : EpochId
  pub summary_hash : Hash
  pub package_hash : Hash

unfoldable pub import_hash : ⦃h : Hasher⦄ → FinalizedImportLeafHashInput → Hash
import_hash input = blake2_256 (
    u16 input.version
    ∷ bytes input.export_id
    ∷ domain input.source_domain
    ∷ domain input.target_domain
    ∷ bytes input.recipient
    ∷ u128 input.amount
    ∷ u64 input.source_epoch_id
    ∷ bytes input.summary_hash
    ∷ bytes input.package_hash
    ∷ [])

pub record FinalizedImportLeaf : Type 0 where
  pub version : ℕ
  pub export_id : ExportId
  pub source_domain : DomainId
  pub target_domain : DomainId
  pub recipient : AccountIdBytes
  pub amount : ℕ
  pub source_epoch_id : EpochId
  pub summary_hash : Hash
  pub package_hash : Hash
  pub import_hash : Hash

abbrev pub from_hash_input : ⦃h : Hasher⦄ → FinalizedImportLeafHashInput → FinalizedImportLeaf
from_hash_input input = record {
  version = input.version;
  export_id = input.export_id;
  source_domain = input.source_domain;
  target_domain = input.target_domain;
  recipient = input.recipient;
  amount = input.amount;
  source_epoch_id = input.source_epoch_id;
  summary_hash = input.summary_hash;
  package_hash = input.package_hash;
  import_hash = import_hash input;
}

abbrev pub hash_input : FinalizedImportLeaf → FinalizedImportLeafHashInput
hash_input leaf = record {
  version = leaf.version;
  export_id = leaf.export_id;
  source_domain = leaf.source_domain;
  target_domain = leaf.target_domain;
  recipient = leaf.recipient;
  amount = leaf.amount;
  source_epoch_id = leaf.source_epoch_id;
  summary_hash = leaf.summary_hash;
  package_hash = leaf.package_hash;
}

abbrev pub compute_import_hash : ⦃h : Hasher⦄ → FinalizedImportLeaf → Hash
compute_import_hash leaf = import_hash (hash_input leaf)

pub record ObservedImportClaim : Type 0 where
  pub version : ℕ
  pub export_id : ExportId
  pub source_domain : DomainId
  pub target_domain : DomainId
  pub source_epoch_id : EpochId
  pub summary_hash : Hash
  pub package_hash : Hash
  pub recipient : AccountIdBytes
  pub amount : ℕ

pub record ObservedImportRecord : Type 0 where
  pub version : ℕ
  pub export_id : ExportId
  pub source_domain : DomainId
  pub target_domain : DomainId
  pub source_epoch_id : EpochId
  pub summary_hash : Hash
  pub package_hash : Hash
  pub recipient : AccountIdBytes
  pub amount : ℕ
  pub observed_at_local_block_height : ℕ
  pub observer_account : AccountIdBytes
  pub status : ImportObservationStatus
  pub finalized_at_local_block_height : Option ℕ
  pub finalizer_account : Option AccountIdBytes

abbrev pub from_claim : ObservedImportClaim → ℕ → AccountIdBytes → ObservedImportRecord
from_claim claim observed_at_local_block_height observer_account = record {
  version = claim.version;
  export_id = claim.export_id;
  source_domain = claim.source_domain;
  target_domain = claim.target_domain;
  source_epoch_id = claim.source_epoch_id;
  summary_hash = claim.summary_hash;
  package_hash = claim.package_hash;
  recipient = claim.recipient;
  amount = claim.amount;
  observed_at_local_block_height = observed_at_local_block_height;
  observer_account = observer_account;
  status = remote_observed;
  finalized_at_local_block_height = none;
  finalizer_account = none;
}

unfoldable pub finalized_leaf : ⦃h : Hasher⦄ → ObservedImportRecord → Option FinalizedImportLeaf
finalized_leaf r =
    if not (import_status_beq r.status remote_finalized)
    then none
    else some (
        from_hash_input (record {
          version = finalized_import_leaf_version;
          export_id = r.export_id;
          source_domain = r.source_domain;
          target_domain = r.target_domain;
          recipient = r.recipient;
          amount = r.amount;
          source_epoch_id = r.source_epoch_id;
          summary_hash = r.summary_hash;
          package_hash = r.package_hash;
        }))
