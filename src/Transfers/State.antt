-- ===== src/Transfers/State.antt =====
-- The pallet's storage, its events and its errors.
use interplanetary_asynchron.Prelude.{ℕ, Option, List, [], ◌∷◌, ◌++◌, nat_eq, pair_eq}
use interplanetary_asynchron.Prelude.Map.{Map, or_default, get}
use interplanetary_asynchron.Types.Export.{ExportRecord}
use interplanetary_asynchron.Types.Import.{ObservedImportRecord}
use interplanetary_asynchron.Types.Scale.{DomainId, domain_eq, ExportId, AccountId, EpochId}

pub data Event : Type 0 where
  cross_domain_transfer_created : ExportId → EpochId → DomainId → ℕ → Event
  export_marked_committed : ExportId → EpochId → Event
  import_observed : ExportId → DomainId → DomainId → Event
  import_finalized : ExportId → DomainId → DomainId → ℕ → Event
  remote_finalization_acknowledged : ExportId → DomainId → DomainId → Event

pub data Error : Type 0 where
  same_domain_target zero_amount hold_failed missing_importer_account unauthorized_importer : Error
  wrong_target_domain duplicate_observed_import missing_observed_import : Error
  duplicate_finalized_import import_not_observed invalid_recipient_encoding : Error
  invalid_sender_encoding mint_failed missing_export_record wrong_source_domain : Error
  wrong_claim_target_domain completion_mismatch hold_resolution_failed : Error

pub data DispatchError : Type 0 where
  bad_origin : DispatchError
  module_error : Error → DispatchError

-- The storage items, with the balances that the currency keeps and the events deposited so far.
pub record Storage (B : Type 0) : Type 0 where
  pub next_export_sequence : ℕ
  pub epoch_export_ids : Map EpochId (List ExportId)
  pub exports_by_id : Map ExportId ExportRecord
  pub importer_account : Option AccountId
  pub observed_imports_by_id : Map ExportId ObservedImportRecord
  pub epoch_finalized_import_ids : Map EpochId (List ExportId)
  pub balances : B
  pub events : List Event

-- `GenesisConfig::build` on empty storage.
abbrev pub genesis : {B : Type 0} → Option AccountId → B → Storage B
genesis importer_account balances = record {
  next_export_sequence = 0;
  epoch_export_ids = [];
  exports_by_id = [];
  importer_account = importer_account;
  observed_imports_by_id = [];
  epoch_finalized_import_ids = [];
  balances = balances;
  events = [];
}

module _ {B : Type 0} where
  abbrev pub deposit_event : Event → Storage B → Storage B
  deposit_event event s = record s { events = s.events ++ event ∷ [] }

  -- The `ValueQuery` reads of the two epoch indices.
  abbrev pub export_ids : Storage B → EpochId → List ExportId
  export_ids s epoch_id = or_default [] (get s.epoch_export_ids epoch_id)

  abbrev pub finalized_import_ids : Storage B → EpochId → List ExportId
  finalized_import_ids s epoch_id = or_default [] (get s.epoch_finalized_import_ids epoch_id)
