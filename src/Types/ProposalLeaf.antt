-- ===== src/Types/ProposalLeaf.antt =====
-- An approved proposal as one target domain receives it.
use interplanetary_asynchron.Prelude.{ℕ, List, [], ◌∷◌, nat_eq, pair_eq}
use interplanetary_asynchron.Types.Scale.{
  DomainId, domain_eq, Hash, AccountIdBytes, EpochId, u16, u32, u64, bytes, domain, domains, Hasher,
  blake2_256,
}

pub record GovernanceProposalLeafHashInput : Type 0 where
  pub version : ℕ
  pub proposal_id : Hash
  pub source_domain : DomainId
  pub target_domain : DomainId
  pub target_domains : List DomainId
  pub proposer : AccountIdBytes
  pub payload_hash : Hash
  pub new_protocol_version : ℕ
  pub created_epoch : EpochId
  pub voting_start_epoch : EpochId
  pub voting_end_epoch : EpochId
  pub approval_epoch : EpochId
  pub activation_epoch : EpochId

unfoldable pub leaf_hash : ⦃h : Hasher⦄ → GovernanceProposalLeafHashInput → Hash
leaf_hash input = blake2_256 (
    u16 input.version
    ∷ bytes input.proposal_id
    ∷ domain input.source_domain
    ∷ domain input.target_domain
    ∷ domains input.target_domains
    ∷ bytes input.proposer
    ∷ bytes input.payload_hash
    ∷ u32 input.new_protocol_version
    ∷ u64 input.created_epoch
    ∷ u64 input.voting_start_epoch
    ∷ u64 input.voting_end_epoch
    ∷ u64 input.approval_epoch
    ∷ u64 input.activation_epoch
    ∷ [])

pub record GovernanceProposalLeaf : Type 0 where
  pub version : ℕ
  pub proposal_id : Hash
  pub source_domain : DomainId
  pub target_domain : DomainId
  pub target_domains : List DomainId
  pub proposer : AccountIdBytes
  pub payload_hash : Hash
  pub new_protocol_version : ℕ
  pub created_epoch : EpochId
  pub voting_start_epoch : EpochId
  pub voting_end_epoch : EpochId
  pub approval_epoch : EpochId
  pub activation_epoch : EpochId
  pub leaf_hash : Hash

abbrev pub from_hash_input : ⦃h : Hasher⦄ → GovernanceProposalLeafHashInput → GovernanceProposalLeaf
from_hash_input input = record {
  version = input.version;
  proposal_id = input.proposal_id;
  source_domain = input.source_domain;
  target_domain = input.target_domain;
  target_domains = input.target_domains;
  proposer = input.proposer;
  payload_hash = input.payload_hash;
  new_protocol_version = input.new_protocol_version;
  created_epoch = input.created_epoch;
  voting_start_epoch = input.voting_start_epoch;
  voting_end_epoch = input.voting_end_epoch;
  approval_epoch = input.approval_epoch;
  activation_epoch = input.activation_epoch;
  leaf_hash = leaf_hash input;
}

abbrev pub hash_input : GovernanceProposalLeaf → GovernanceProposalLeafHashInput
hash_input leaf = record {
  version = leaf.version;
  proposal_id = leaf.proposal_id;
  source_domain = leaf.source_domain;
  target_domain = leaf.target_domain;
  target_domains = leaf.target_domains;
  proposer = leaf.proposer;
  payload_hash = leaf.payload_hash;
  new_protocol_version = leaf.new_protocol_version;
  created_epoch = leaf.created_epoch;
  voting_start_epoch = leaf.voting_start_epoch;
  voting_end_epoch = leaf.voting_end_epoch;
  approval_epoch = leaf.approval_epoch;
  activation_epoch = leaf.activation_epoch;
}

abbrev pub compute_leaf_hash : ⦃h : Hasher⦄ → GovernanceProposalLeaf → Hash
compute_leaf_hash leaf = leaf_hash (hash_input leaf)
