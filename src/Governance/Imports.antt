-- ===== src/Governance/Imports.antt =====
-- The importer's calls: a proposal of another chain, and another chain's acknowledgement.
use interplanetary_asynchron.Prelude.{
  Bool, true, false, not, ◌&&◌, none, some, List, [], ◌∷◌, contains, ◌==◌, nat_eq, pair_eq,
}
use interplanetary_asynchron.Governance.Activation.{
  maybe_schedule_activation, note_known_ack_domain,
}
use interplanetary_asynchron.Governance.Calls.{ensure_importer, store_activation_record}
use interplanetary_asynchron.Governance.Outbox.{record_local_ack_and_fanout}
use interplanetary_asynchron.Governance.State.{
  Storage, deposit_event, wrong_target_domain, wrong_source_domain, DispatchError, module_error,
  proposal_imported, governance_acknowledged, duplicate_imported_proposal, duplicate_imported_ack,
  proposal_not_known, proposal_facts_mismatch, acking_domain_not_targeted,
}
use interplanetary_asynchron.Prelude.Map.{get, insert, contains_key}
use interplanetary_asynchron.Prelude.Outcome.{Outcome, ok, ◌>>=◌, ◌>>◌, ensure, ok_or}
use interplanetary_asynchron.Transfers.Config.{Origin, Env, saturated_into_u32}
use interplanetary_asynchron.Types.AckLeaf.{GovernanceAckLeaf}
use interplanetary_asynchron.Types.Governance.{
  governance_proposal_version, governance_ack_record_version, set_protocol_version, payload_hash,
  protocol_version, locally_finalized, GovernanceProposal, ImportedGovernanceProposalClaim,
  ImportedGovernanceAckClaim,
}
use interplanetary_asynchron.Types.ProposalLeaf.{GovernanceProposalLeaf}
use interplanetary_asynchron.Types.Scale.{DomainId, domain_eq, Hasher}

abbrev pub imported_proposal : GovernanceProposalLeaf → GovernanceProposal
imported_proposal leaf = record {
  version = governance_proposal_version;
  proposal_id = leaf.proposal_id;
  source_domain = leaf.source_domain;
  target_domains = leaf.target_domains;
  proposer = leaf.proposer;
  payload = set_protocol_version leaf.new_protocol_version;
  payload_hash = leaf.payload_hash;
  created_epoch = leaf.created_epoch;
  voting_start_epoch = leaf.voting_start_epoch;
  voting_end_epoch = leaf.voting_end_epoch;
  approval_epoch = some leaf.approval_epoch;
  activation_epoch = leaf.activation_epoch;
  snapshot_total_voting_power = 0;
  quorum_numerator = 1;
  quorum_denominator = 2;
  yes_voting_power = 0;
  no_voting_power = 0;
  abstain_voting_power = 0;
  status = locally_finalized;
}

-- `Vec<DomainId>::eq`.
abbrev pub domains_beq : List DomainId → List DomainId → Bool
domains_beq [] [] = true
domains_beq (a ∷ as_) (b ∷ bs) = a == b && domains_beq as_ bs
domains_beq _ _ = false

module _ ⦃h : Hasher⦄ (env : Env) where
  unfoldable pub store_imported : GovernanceProposalLeaf → Storage → Storage
  store_imported leaf s =
      let proposal = imported_proposal leaf in
      deposit_event (proposal_imported leaf.proposal_id leaf.source_domain env.domain_id) (
        maybe_schedule_activation leaf.proposal_id env.current_epoch (
          record_local_ack_and_fanout env proposal (
            store_activation_record proposal (env.domain_id ∷ []) none
              (record s { proposals_by_id = insert s.proposals_by_id leaf.proposal_id proposal }))))

  unfoldable pub import_verified_governance_proposal :
      Origin → ImportedGovernanceProposalClaim → Storage → Outcome DispatchError Storage
  import_verified_governance_proposal origin claim s = do
    who ← ensure_importer origin s
    let leaf = claim.leaf
    ensure (leaf.target_domain == env.domain_id) (module_error wrong_target_domain)
    ensure (not (leaf.source_domain == env.domain_id)) (module_error wrong_source_domain)
    ensure (not (contains_key s.proposals_by_id leaf.proposal_id))
        (module_error duplicate_imported_proposal)
    ensure (contains leaf.target_domains env.domain_id) (module_error wrong_target_domain)
    ensure (payload_hash (set_protocol_version leaf.new_protocol_version) == leaf.payload_hash)
        (module_error proposal_facts_mismatch)
    ok (store_imported leaf s)

module _ (env : Env) where
  unfoldable pub store_ack : GovernanceAckLeaf → Storage → Storage
  store_ack leaf s =
      deposit_event
        (governance_acknowledged leaf.proposal_id leaf.acknowledging_domain env.domain_id)
        (note_known_ack_domain leaf.proposal_id leaf.acknowledging_domain env.current_epoch
          (record s {
            ack_records_by_key =
                insert s.ack_records_by_key (leaf.proposal_id, leaf.acknowledging_domain)
                  (record {
                    version = governance_ack_record_version;
                    proposal_id = leaf.proposal_id;
                    source_domain = leaf.source_domain;
                    acknowledging_domain = leaf.acknowledging_domain;
                    target_domains = leaf.target_domains;
                    activation_epoch = leaf.activation_epoch;
                    payload_hash = leaf.payload_hash;
                    new_protocol_version = leaf.new_protocol_version;
                    acknowledged_epoch = leaf.acknowledged_epoch;
                    acknowledged_at_local_block_height = saturated_into_u32 env.block_number;
                  });
          }))

  unfoldable pub import_verified_governance_ack :
      Origin → ImportedGovernanceAckClaim → Storage → Outcome DispatchError Storage
  import_verified_governance_ack origin claim s = do
    who ← ensure_importer origin s
    let leaf = claim.leaf
    ensure (leaf.target_domain == env.domain_id) (module_error wrong_target_domain)
    ensure (not (leaf.acknowledging_domain == env.domain_id)) (module_error wrong_source_domain)
    ensure (contains leaf.target_domains leaf.acknowledging_domain)
        (module_error acking_domain_not_targeted)
    ensure (not (contains_key s.ack_records_by_key (leaf.proposal_id, leaf.acknowledging_domain)))
        (module_error duplicate_imported_ack)
    proposal ← ok_or (get s.proposals_by_id leaf.proposal_id) (module_error proposal_not_known)
    ensure
        (proposal.source_domain == leaf.source_domain
          && domains_beq proposal.target_domains leaf.target_domains
          && proposal.payload_hash == leaf.payload_hash
          && protocol_version proposal.payload == leaf.new_protocol_version
          && proposal.activation_epoch == leaf.activation_epoch)
        (module_error proposal_facts_mismatch)
    ok (store_ack leaf s)
