-- ===== src/Transfers/Calls.antt =====
-- The four dispatchable calls.
use interplanetary_asynchron.Types.Export
use interplanetary_asynchron.Types.Import
use interplanetary_asynchron.Prelude.{
  ℕ, ◌+◌, min, not, ◌&&◌, none, some, [], ◌∷◌, ◌++◌, push_new, ltb, ◌==◌, nat_eq, pair_eq,
}
use interplanetary_asynchron.Prelude.Map.{or_default, get, insert, contains_key}
use interplanetary_asynchron.Prelude.Outcome.{Outcome, ok, err, ◌>>=◌, ◌>>◌, ensure, ok_or}
use interplanetary_asynchron.Transfers.Config.{
  Origin, signed, unsigned, Env, saturated_into_u32, Accounts, Currency,
}
use interplanetary_asynchron.Transfers.State.{
  cross_domain_transfer_created, import_observed, import_finalized,
  remote_finalization_acknowledged, same_domain_target, zero_amount, hold_failed,
  missing_importer_account, unauthorized_importer, wrong_target_domain, duplicate_observed_import,
  missing_observed_import, duplicate_finalized_import, import_not_observed,
  invalid_recipient_encoding, invalid_sender_encoding, mint_failed, missing_export_record,
  wrong_source_domain, wrong_claim_target_domain, completion_mismatch, hold_resolution_failed,
  DispatchError, bad_origin, module_error, Storage, deposit_event, export_ids, finalized_import_ids,
}
use interplanetary_asynchron.Types.Export.{
  export_leaf_version, local_final, exported, export_status_beq, ExportLeaf, from_hash_input,
  ExportRecord, RemoteFinalizationClaim, export_id,
}
use interplanetary_asynchron.Types.Import.{
  remote_observed, import_status_beq, ObservedImportClaim, ObservedImportRecord, from_claim,
}
use interplanetary_asynchron.Types.Scale.{
  DomainId, domain_eq, ExportId, AccountIdBytes, AccountId, Hasher, u64_max,
}

abbrev pub ensure_signed : Origin → Outcome DispatchError AccountId
ensure_signed (signed who) = ok who
ensure_signed unsigned = err bad_origin

module _ {B : Type 0} where
  -- The importer's own tests, with which three of the calls begin.
  unfoldable pub ensure_importer : Origin → Storage B → Outcome DispatchError AccountId
  unfolding ensure ok_or ◌>>=◌ ◌>>◌
  ensure_importer origin s = do
    who ← ensure_signed origin
    configured_importer ← ok_or s.importer_account (module_error missing_importer_account)
    ensure (who == configured_importer) (module_error unauthorized_importer)
    ok who

module _ (accounts : Accounts) ⦃h : Hasher⦄ (env : Env) where
  -- The leaf that a transfer commits to.
  abbrev pub new_leaf : AccountId → DomainId → AccountIdBytes → ℕ → ℕ → ExportLeaf
  new_leaf who target_domain recipient amount sequence = from_hash_input (record {
    version = export_leaf_version;
    export_id = export_id env.domain_id sequence;
    source_domain = env.domain_id;
    target_domain = target_domain;
    sender = accounts.to_bytes who;
    recipient = recipient;
    amount = amount;
    source_epoch_id = env.current_epoch;
    source_block_height = saturated_into_u32 env.block_number;
    extrinsic_index = or_default 0 env.extrinsic_index;
  })

abbrev pub new_record : ExportLeaf → ExportRecord
new_record leaf = record {
  leaf = leaf;
  status = local_final;
  completion_summary_hash = none;
  completion_package_hash = none;
  resolved_at_source_block_height = none;
  resolver_account = none;
}

module _ (accounts : Accounts) (env : Env) where
  abbrev pub finalized_record : AccountId → ObservedImportRecord → ObservedImportRecord
  finalized_record who r = record r {
    status = Import.remote_finalized;
    finalized_at_local_block_height = some (saturated_into_u32 env.block_number);
    finalizer_account = some (accounts.to_bytes who);
  }

  abbrev pub resolved_record : AccountId → RemoteFinalizationClaim → ExportRecord → ExportRecord
  resolved_record who claim r = record r {
    status = Export.remote_finalized;
    completion_summary_hash = some claim.completion_summary_hash;
    completion_package_hash = some claim.completion_package_hash;
    resolved_at_source_block_height = some (saturated_into_u32 env.block_number);
    resolver_account = some (accounts.to_bytes who);
  }

module _ {B : Type 0} (accounts : Accounts) ⦃h : Hasher⦄ (env : Env) where
  -- What `create_cross_domain_transfer` writes once the funds are on hold.
  unfoldable pub store_export :
      AccountId → DomainId → AccountIdBytes → ℕ → B → Storage B → Storage B
  store_export who target_domain recipient amount balances s =
      let sequence = s.next_export_sequence in
      let export_id = export_id env.domain_id sequence in
      let current_epoch = env.current_epoch in
      deposit_event (cross_domain_transfer_created export_id current_epoch target_domain amount)
        (record s {
          next_export_sequence = min (sequence + 1) u64_max;
          exports_by_id =
              insert s.exports_by_id export_id
                (new_record (new_leaf accounts env who target_domain recipient amount sequence));
          epoch_export_ids =
              insert s.epoch_export_ids current_epoch
                (export_ids s current_epoch ++ export_id ∷ []);
          balances = balances;
        })

module _ {B : Type 0} (accounts : Accounts) (env : Env) where
  unfoldable pub store_observed : AccountId → ObservedImportClaim → Storage B → Storage B
  store_observed who claim s =
      deposit_event (import_observed claim.export_id claim.source_domain claim.target_domain)
        (record s {
          observed_imports_by_id =
              insert s.observed_imports_by_id claim.export_id
                (from_claim claim (saturated_into_u32 env.block_number) (accounts.to_bytes who));
        })

  unfoldable pub observe_verified_import :
      Origin → ObservedImportClaim → Storage B → Outcome DispatchError (Storage B)
  observe_verified_import origin claim s = do
    who ← ensure_importer origin s
    ensure (claim.target_domain == env.domain_id) (module_error wrong_target_domain)
    ensure (not (contains_key s.observed_imports_by_id claim.export_id))
        (module_error duplicate_observed_import)
    ok (store_observed who claim s)

  unfoldable pub store_finalized :
      AccountId → ExportId → ObservedImportRecord → B → Storage B → Storage B
  store_finalized who id r balances s =
      deposit_event (import_finalized id r.source_domain r.target_domain r.amount) (record s {
        observed_imports_by_id =
            insert s.observed_imports_by_id id (finalized_record accounts env who r);
        epoch_finalized_import_ids =
            insert s.epoch_finalized_import_ids env.current_epoch
              (push_new (finalized_import_ids s env.current_epoch) id);
        balances = balances;
      })

  unfoldable pub store_resolved :
      AccountId → RemoteFinalizationClaim → ExportRecord → B → Storage B → Storage B
  store_resolved who claim r balances s =
      deposit_event
        (remote_finalization_acknowledged claim.export_id claim.source_domain claim.target_domain)
        (record s {
          exports_by_id =
              insert s.exports_by_id claim.export_id (resolved_record accounts env who claim r);
          balances = balances;
        })

module _ {B : Type 0} (currency : Currency B) (accounts : Accounts) ⦃h : Hasher⦄ (env : Env) where
  unfoldable pub create_cross_domain_transfer :
      Origin → DomainId → AccountIdBytes → ℕ → Storage B → Outcome DispatchError (Storage B)
  create_cross_domain_transfer origin target_domain recipient amount s = do
    who ← ensure_signed origin
    ensure (ltb 0 amount) (module_error zero_amount)
    ensure (not (target_domain == env.domain_id)) (module_error same_domain_target)
    balances ← ok_or (currency.hold s.balances who amount) (module_error hold_failed)
    ok (store_export accounts env who target_domain recipient amount balances s)

module _ {B : Type 0} (currency : Currency B) (accounts : Accounts) (env : Env) where
  unfoldable pub finalize_verified_import :
      Origin → ExportId → Storage B → Outcome DispatchError (Storage B)
  finalize_verified_import origin id s = do
    who ← ensure_importer origin s
    r ← ok_or (get s.observed_imports_by_id id) (module_error missing_observed_import)
    ensure (r.target_domain == env.domain_id) (module_error wrong_target_domain)
    ensure (import_status_beq r.status remote_observed) (module_error import_not_observed)
    recipient ← ok_or (accounts.from_bytes r.recipient) (module_error invalid_recipient_encoding)
    balances ← ok_or (currency.mint_into s.balances recipient r.amount) (module_error mint_failed)
    ok (store_finalized accounts env who id r balances s)

  unfoldable pub acknowledge_remote_finalization :
      Origin → RemoteFinalizationClaim → Storage B → Outcome DispatchError (Storage B)
  acknowledge_remote_finalization origin claim s = do
    who ← ensure_importer origin s
    ensure (claim.source_domain == env.domain_id) (module_error wrong_source_domain)
    r ← ok_or (get s.exports_by_id claim.export_id) (module_error missing_export_record)
    ensure (r.leaf.source_domain == claim.source_domain) (module_error wrong_source_domain)
    ensure (r.leaf.target_domain == claim.target_domain) (module_error wrong_claim_target_domain)
    ensure
        (r.leaf.source_epoch_id == claim.source_epoch_id
          && r.leaf.recipient == claim.recipient
          && r.leaf.amount == claim.amount)
        (module_error completion_mismatch)
    ensure (not (export_status_beq r.status Export.remote_finalized))
        (module_error duplicate_finalized_import)
    ensure (export_status_beq r.status exported) (module_error completion_mismatch)
    sender ← ok_or (accounts.from_bytes r.leaf.sender) (module_error invalid_sender_encoding)
    balances ←
        ok_or (currency.burn_held s.balances sender r.leaf.amount)
          (module_error hold_resolution_failed)
    ok (store_resolved accounts env who claim r balances s)
