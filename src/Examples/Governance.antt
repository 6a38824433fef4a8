-- ===== src/Examples/Governance.antt =====
-- A proposal of Earth that Mars imports, acknowledges and activates.
use interplanetary_asynchron.Types.ProposalLeaf
use interplanetary_asynchron.Examples.Transfers.{mars_env}
use interplanetary_asynchron.Examples.World.{hasher, accounts}
use interplanetary_asynchron.Governance.Activation.{
  on_initialize, activate_ready_queue, activate_queue, activate_all, activate_if_due,
  store_activated, schedule_if_acked, store_scheduled, enqueue,
}
use interplanetary_asynchron.Governance.Calls.{ensure_importer, store_activation_record}
use interplanetary_asynchron.Governance.Imports.{
  store_imported, import_verified_governance_proposal,
}
use interplanetary_asynchron.Governance.Outbox.{
  insert_epoch_leaf, insert_leaves, record_local_ack_and_fanout,
}
use interplanetary_asynchron.Governance.Safety.Histories.{Chain, import_proposal_call, dispatch}
use interplanetary_asynchron.Governance.State.{genesis}
use interplanetary_asynchron.Prelude.{
  dedup, ℕ, ◌≡◌, refl, some, [], ◌∷◌, contains, push_new, nat_eq, pair_eq,
}
use interplanetary_asynchron.Prelude.Map.{get, insert}
use interplanetary_asynchron.Prelude.Outcome.{◌>>=◌, ◌>>◌, ensure, ok_or, after}
use interplanetary_asynchron.Prelude.Sorting.{sort_by}
use interplanetary_asynchron.Transfers.Config.{signed}
use interplanetary_asynchron.Types.Governance.{
  ImportedGovernanceProposalClaim, payload_hash, set_protocol_version,
}
use interplanetary_asynchron.Types.Scale.{earth, mars, domain_eq, AccountId}

abbrev claim : ImportedGovernanceProposalClaim
claim = record {
  version = 1;
  leaf = ProposalLeaf.from_hash_input (record {
    version = 1;
    proposal_id = 40;
    source_domain = earth;
    target_domain = mars;
    target_domains = mars ∷ [];
    proposer = 1;
    payload_hash = payload_hash (set_protocol_version 2);
    new_protocol_version = 2;
    created_epoch = 0;
    voting_start_epoch = 0;
    voting_end_epoch = 1;
    approval_epoch = 1;
    activation_epoch = 5;
  });
  summary_hash = 11;
  package_hash = 12;
}

abbrev poor : AccountId → ℕ
poor who = 0

abbrev mars_start : Chain
mars_start = record { current = 0; storage = genesis 1 (some 99) [] }

abbrev mars_informed : Chain
mars_informed = record {
  current = 2;
  storage = after mars_start.storage (
      dispatch accounts poor (mars_env 2 9) (import_proposal_call (signed 99) claim)
        mars_start.storage);
}

abbrev mars_upgraded : Chain
mars_upgraded = record {
  current = 5;
  storage = on_initialize (mars_env 5 21) mars_informed.storage;
}

-- The version changes in the fifth epoch.
upgraded_version : mars_upgraded.storage.current_version ≡ 2
unfolding dispatch import_verified_governance_proposal store_imported store_activation_record
    record_local_ack_and_fanout insert_leaves insert_epoch_leaf schedule_if_acked store_scheduled
    enqueue ensure_importer on_initialize activate_ready_queue activate_queue activate_all
    activate_if_due store_activated ◌>>=◌ ◌>>◌ ensure ok_or get insert sort_by dedup contains
    push_new payload_hash
upgraded_version = refl
