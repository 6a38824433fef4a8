-- ===== src/Governance/Outbox.antt =====
-- The leaves that a proposal and its acknowledgements put into the epoch, and their root.
use interplanetary_asynchron.Types.ProposalLeaf
use interplanetary_asynchron.Types.AckLeaf
use interplanetary_asynchron.Prelude.{
  dedup, ℕ, List, [], ◌∷◌, ◌++◌, map, filter_map, push_new, if◌then◌else◌, ◌==◌, nat_eq, pair_eq,
}
use interplanetary_asynchron.Governance.State.{Storage, deposit_event, governance_acknowledged}
use interplanetary_asynchron.Merkle.Governance.{sort_governance_leaves, governance_merkle_root}
use interplanetary_asynchron.Prelude.Map.{or_default, get, insert}
use interplanetary_asynchron.Prelude.Sorting.{sort_by}
use interplanetary_asynchron.Transfers.Config.{Env, saturated_into_u32}
use interplanetary_asynchron.Types.Governance.{
  leaf_hash, governance_ack_record_version, governance_proposal_leaf_version,
  governance_ack_leaf_version, protocol_version, GovernanceProposal, GovernanceLeaf, proposal_v1,
  ack_v1, target_domain,
}
use interplanetary_asynchron.Types.Scale.{
  DomainId, domain_eq, domain_compare, Hash, EpochId, Hasher,
}

unfoldable pub insert_epoch_leaf : EpochId → GovernanceLeaf → Storage → Storage
insert_epoch_leaf epoch_id leaf s =
    let leaf_id = leaf_hash leaf in
    record s {
      governance_leaves_by_id = insert s.governance_leaves_by_id leaf_id leaf;
      epoch_governance_leaf_ids =
          insert s.epoch_governance_leaf_ids epoch_id
            (push_new (or_default [] (get s.epoch_governance_leaf_ids epoch_id)) leaf_id);
    }

unfoldable pub insert_leaves : EpochId → List GovernanceLeaf → Storage → Storage
insert_leaves epoch_id [] s = s
insert_leaves epoch_id (leaf ∷ rest) s =
    insert_leaves epoch_id rest (insert_epoch_leaf epoch_id leaf s)

module _ ⦃h : Hasher⦄ where
  abbrev pub outbound_leaf : GovernanceProposal → EpochId → DomainId → GovernanceLeaf
  outbound_leaf proposal approval_epoch target_domain = proposal_v1 (
      ProposalLeaf.from_hash_input (record {
        version = governance_proposal_leaf_version;
        proposal_id = proposal.proposal_id;
        source_domain = proposal.source_domain;
        target_domain = target_domain;
        target_domains = proposal.target_domains;
        proposer = proposal.proposer;
        payload_hash = proposal.payload_hash;
        new_protocol_version = protocol_version proposal.payload;
        created_epoch = proposal.created_epoch;
        voting_start_epoch = proposal.voting_start_epoch;
        voting_end_epoch = proposal.voting_end_epoch;
        approval_epoch = approval_epoch;
        activation_epoch = proposal.activation_epoch;
      }))

  abbrev pub insert_outbound_proposal_leaves : GovernanceProposal → EpochId → Storage → Storage
  insert_outbound_proposal_leaves proposal approval_epoch s =
      let epoch = or_default approval_epoch proposal.approval_epoch in
      insert_leaves epoch (map (outbound_leaf proposal epoch) proposal.target_domains) s

  abbrev pub ack_leaf : GovernanceProposal → EpochId → DomainId → DomainId → GovernanceLeaf
  ack_leaf proposal current_epoch local_domain target_domain = ack_v1 (
      AckLeaf.from_hash_input (record {
        version = governance_ack_leaf_version;
        proposal_id = proposal.proposal_id;
        source_domain = proposal.source_domain;
        target_domain = target_domain;
        acknowledging_domain = local_domain;
        target_domains = proposal.target_domains;
        payload_hash = proposal.payload_hash;
        new_protocol_version = protocol_version proposal.payload;
        activation_epoch = proposal.activation_epoch;
        acknowledged_epoch = current_epoch;
      }))

  -- `Vec::retain` of the other domains.
  abbrev pub without : DomainId → List DomainId → List DomainId
  without local_domain [] = []
  without local_domain (other ∷ rest) =
      if other == local_domain then without local_domain rest else other ∷ without local_domain rest

  unfoldable pub record_local_ack_and_fanout : Env → GovernanceProposal → Storage → Storage
  record_local_ack_and_fanout env proposal s =
      let local_domain = env.domain_id in
      let fanout_targets =
        without local_domain (
          dedup
            (sort_by domain_compare (proposal.target_domains ++ proposal.source_domain ∷ []))) in
      deposit_event (governance_acknowledged proposal.proposal_id local_domain local_domain) (
        insert_leaves env.current_epoch
          (map (ack_leaf proposal env.current_epoch local_domain) fanout_targets)
          (record s {
            ack_records_by_key =
                insert s.ack_records_by_key (proposal.proposal_id, local_domain)
                  (record {
                    version = governance_ack_record_version;
                    proposal_id = proposal.proposal_id;
                    source_domain = proposal.source_domain;
                    acknowledging_domain = local_domain;
                    target_domains = proposal.target_domains;
                    activation_epoch = proposal.activation_epoch;
                    payload_hash = proposal.payload_hash;
                    new_protocol_version = protocol_version proposal.payload;
                    acknowledged_epoch = env.current_epoch;
                    acknowledged_at_local_block_height = saturated_into_u32 env.block_number;
                  });
          }))

unfoldable pub canonical_epoch_governance_leaves : Storage → EpochId → List GovernanceLeaf
canonical_epoch_governance_leaves s epoch_id = sort_governance_leaves (
    filter_map (λ leaf_id. get s.governance_leaves_by_id leaf_id)
      (or_default [] (get s.epoch_governance_leaf_ids epoch_id)))

unfoldable pub commit_epoch_governance : ⦃h : Hasher⦄ → DomainId → EpochId → ℕ → ℕ → Storage → Hash
commit_epoch_governance domain_id epoch_id start_block_height end_block_height s =
    governance_merkle_root domain_id epoch_id start_block_height end_block_height
      (canonical_epoch_governance_leaves s epoch_id)
