-- ===== src/Types/Governance.antt =====
-- Proposals, votes, acknowledgements and activations, and the leaf that carries them.
use interplanetary_asynchron.Types.ProposalLeaf
use interplanetary_asynchron.Types.AckLeaf
use interplanetary_asynchron.Prelude.{ℕ, Bool, Option, List, [], ◌∷◌, nat_beq, nat_eq, pair_eq}
use interplanetary_asynchron.Types.AckLeaf.{GovernanceAckLeaf}
use interplanetary_asynchron.Types.ProposalLeaf.{GovernanceProposalLeaf}
use interplanetary_asynchron.Types.Scale.{
  DomainId, domain_eq, Hash, AccountIdBytes, EpochId, u8, u16, u32, u64, domain, Hasher, blake2_256,
}

abbrev pub governance_proposal_version : ℕ
governance_proposal_version = 1

abbrev pub governance_vote_version : ℕ
governance_vote_version = 1

abbrev pub governance_ack_record_version : ℕ
governance_ack_record_version = 1

abbrev pub governance_activation_record_version : ℕ
governance_activation_record_version = 1

abbrev pub governance_proposal_leaf_version : ℕ
governance_proposal_leaf_version = 1

abbrev pub governance_ack_leaf_version : ℕ
governance_ack_leaf_version = 1

abbrev pub GovernanceProposalId : Type 0
GovernanceProposalId = Hash

pub data GovernancePayload : Type 0 where
  set_protocol_version : ℕ → GovernancePayload

-- The version of the payload, the number of its variant, and its field.
unfoldable pub payload_hash : ⦃h : Hasher⦄ → GovernancePayload → Hash
payload_hash (set_protocol_version new_version) = blake2_256 (u16 1 ∷ u8 0 ∷ u32 new_version ∷ [])

abbrev pub protocol_version : GovernancePayload → ℕ
protocol_version (set_protocol_version new_version) = new_version

pub data GovernanceVoteChoice : Type 0 where
  vote_yes vote_no vote_abstain : GovernanceVoteChoice

pub data GovernanceProposalStatus : Type 0 where
  created voting rejected locally_finalized scheduled activated : GovernanceProposalStatus

abbrev pub status_index : GovernanceProposalStatus → ℕ
status_index created = 0
status_index voting = 1
status_index rejected = 2
status_index locally_finalized = 3
status_index scheduled = 4
status_index activated = 5

abbrev pub status_beq : GovernanceProposalStatus → GovernanceProposalStatus → Bool
status_beq a b = nat_beq (status_index a) (status_index b)

pub record GovernanceVote : Type 0 where
  pub version : ℕ
  pub proposal_id : GovernanceProposalId
  pub voter : AccountIdBytes
  pub choice : GovernanceVoteChoice
  pub voting_power : ℕ
  pub cast_epoch : EpochId
  pub cast_block_height : ℕ

pub record GovernanceProposal : Type 0 where
  pub version : ℕ
  pub proposal_id : GovernanceProposalId
  pub source_domain : DomainId
  pub target_domains : List DomainId
  pub proposer : AccountIdBytes
  pub payload : GovernancePayload
  pub payload_hash : Hash
  pub created_epoch : EpochId
  pub voting_start_epoch : EpochId
  pub voting_end_epoch : EpochId
  pub approval_epoch : Option EpochId
  pub activation_epoch : EpochId
  pub snapshot_total_voting_power : ℕ
  pub quorum_numerator : ℕ
  pub quorum_denominator : ℕ
  pub yes_voting_power : ℕ
  pub no_voting_power : ℕ
  pub abstain_voting_power : ℕ
  pub status : GovernanceProposalStatus

pub record GovernanceAckRecord : Type 0 where
  pub version : ℕ
  pub proposal_id : GovernanceProposalId
  pub source_domain : DomainId
  pub acknowledging_domain : DomainId
  pub target_domains : List DomainId
  pub activation_epoch : EpochId
  pub payload_hash : Hash
  pub new_protocol_version : ℕ
  pub acknowledged_epoch : EpochId
  pub acknowledged_at_local_block_height : ℕ

pub record GovernanceActivationRecord : Type 0 where
  pub version : ℕ
  pub proposal_id : GovernanceProposalId
  pub source_domain : DomainId
  pub target_domains : List DomainId
  pub payload_hash : Hash
  pub new_protocol_version : ℕ
  pub activation_epoch : EpochId
  pub known_ack_domains : List DomainId
  pub scheduled_at_epoch : Option EpochId
  pub activated_at_epoch : Option EpochId
  pub activated_at_local_block_height : Option ℕ
  pub status : GovernanceProposalStatus

pub record ImportedGovernanceProposalClaim : Type 0 where
  pub version : ℕ
  pub leaf : GovernanceProposalLeaf
  pub summary_hash : Hash
  pub package_hash : Hash

pub record ImportedGovernanceAckClaim : Type 0 where
  pub version : ℕ
  pub leaf : GovernanceAckLeaf
  pub summary_hash : Hash
  pub package_hash : Hash

pub data GovernanceLeaf : Type 0 where
  proposal_v1 : GovernanceProposalLeaf → GovernanceLeaf
  ack_v1 : GovernanceAckLeaf → GovernanceLeaf

abbrev pub target_domain : GovernanceLeaf → DomainId
target_domain (proposal_v1 leaf) = leaf.target_domain
target_domain (ack_v1 leaf) = leaf.target_domain

abbrev pub proposal_id : GovernanceLeaf → GovernanceProposalId
proposal_id (proposal_v1 leaf) = leaf.proposal_id
proposal_id (ack_v1 leaf) = leaf.proposal_id

abbrev pub leaf_hash : GovernanceLeaf → Hash
leaf_hash (proposal_v1 leaf) = leaf.leaf_hash
leaf_hash (ack_v1 leaf) = leaf.leaf_hash

abbrev pub compute_leaf_hash : ⦃h : Hasher⦄ → GovernanceLeaf → Hash
compute_leaf_hash (proposal_v1 leaf) = ProposalLeaf.compute_leaf_hash leaf
compute_leaf_hash (ack_v1 leaf) = AckLeaf.compute_leaf_hash leaf

abbrev pub ordering_domain : GovernanceLeaf → DomainId
ordering_domain (proposal_v1 leaf) = leaf.source_domain
ordering_domain (ack_v1 leaf) = leaf.acknowledging_domain

abbrev pub kind_order : GovernanceLeaf → ℕ
kind_order (proposal_v1 leaf) = 0
kind_order (ack_v1 leaf) = 1

unfoldable pub governance_proposal_id : ⦃h : Hasher⦄ → DomainId → ℕ → GovernanceProposalId
governance_proposal_id source_domain proposal_sequence =
    blake2_256 (domain source_domain ∷ u64 proposal_sequence ∷ [])
