-- ===== src/Examples/GovernanceLeaves.antt =====
-- Two governance leaves of an epoch, and an inclusion proof.
use interplanetary_asynchron.Types.ProposalLeaf
use interplanetary_asynchron.Types.AckLeaf
use interplanetary_asynchron.Examples.World.{hasher}
use interplanetary_asynchron.Merkle.Governance.{
  GovernanceInclusionProof, build_governance_inclusion_proof,
  build_governance_inclusion_proof-verifies, governance_merkle_root,
  verify_governance_inclusion_proof,
}
use interplanetary_asynchron.Prelude.{
  nat_eq, pair_eq, ◌≡◌, refl, inr, inl, true, some, List, [], ◌∷◌, arith, In,
}
use interplanetary_asynchron.Types.Governance.{GovernanceLeaf, proposal_v1, ack_v1, leaf_hash}
use interplanetary_asynchron.Types.Scale.{
  earth, moon, mars, domain_eq, Scale, u16, u32, u64, bytes, domain, domains,
}
use interplanetary_asynchron.Types.ProposalLeaf.{GovernanceProposalLeafHashInput}
use interplanetary_asynchron.Types.AckLeaf.{GovernanceAckLeafHashInput}

abbrev acknowledged : GovernanceLeaf
acknowledged = ack_v1 (
    AckLeaf.from_hash_input (record {
      version = 1;
      proposal_id = 40;
      source_domain = earth;
      target_domain = moon;
      acknowledging_domain = mars;
      target_domains = moon ∷ mars ∷ [];
      payload_hash = 3;
      new_protocol_version = 2;
      activation_epoch = 5;
      acknowledged_epoch = 2;
    }))

abbrev proposed : GovernanceLeaf
proposed = proposal_v1 (
    ProposalLeaf.from_hash_input (record {
      version = 1;
      proposal_id = 41;
      source_domain = mars;
      target_domain = earth;
      target_domains = earth ∷ [];
      proposer = 1;
      payload_hash = 3;
      new_protocol_version = 2;
      created_epoch = 0;
      voting_start_epoch = 0;
      voting_end_epoch = 1;
      approval_epoch = 1;
      activation_epoch = 5;
    }))

abbrev both : List GovernanceLeaf
both = acknowledged ∷ proposed ∷ []

build_governance_inclusion_proof-verifies_example :
    (proof : GovernanceInclusionProof) × (build_governance_inclusion_proof both (leaf_hash proposed)
      ≡ some proof)
    × (leaf_hash proof.leaf ≡ leaf_hash proposed)
    × In proof.leaf both
    × (verify_governance_inclusion_proof (governance_merkle_root mars 1 5 8 both) proof ≡ true)
build_governance_inclusion_proof-verifies_example =
    build_governance_inclusion_proof-verifies both proposed mars 1 5 8 (inr (inl refl))
      (refl, (refl, tt)) (omega arith)

abbrev proposal_fields : GovernanceProposalLeafHashInput → List Scale
proposal_fields x =
    u16 x.version
    ∷ bytes x.proposal_id
    ∷ domain x.source_domain
    ∷ domain x.target_domain
    ∷ domains x.target_domains
    ∷ bytes x.proposer
    ∷ bytes x.payload_hash
    ∷ u32 x.new_protocol_version
    ∷ u64 x.created_epoch
    ∷ u64 x.voting_start_epoch
    ∷ u64 x.voting_end_epoch
    ∷ u64 x.approval_epoch
    ∷ u64 x.activation_epoch
    ∷ []

abbrev ack_fields : GovernanceAckLeafHashInput → List Scale
ack_fields x =
    u16 x.version
    ∷ bytes x.proposal_id
    ∷ domain x.source_domain
    ∷ domain x.target_domain
    ∷ domain x.acknowledging_domain
    ∷ domains x.target_domains
    ∷ bytes x.payload_hash
    ∷ u32 x.new_protocol_version
    ∷ u64 x.activation_epoch
    ∷ u64 x.acknowledged_epoch
    ∷ []

abbrev proof_acknowledged : GovernanceInclusionProof
proof_acknowledged = record {
  version = 1;
  leaf = acknowledged;
  leaf_index = 1;
  leaf_count = 2;
  siblings = leaf_hash proposed ∷ [];
}
