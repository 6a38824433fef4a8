-- ===== src/Types/AckLeaf.antt =====
-- The acknowledgement of a proposal as one other domain receives it.
use interplanetary_asynchron.Prelude.{ℕ, List, [], ◌∷◌, nat_eq, pair_eq}
use interplanetary_asynchron.Types.Scale.{
  DomainId, domain_eq, Hash, EpochId, u16, u32, u64, bytes, domain, domains, Hasher, blake2_256,
}

pub record GovernanceAckLeafHashInput : Type 0 where
  pub version : ℕ
  pub proposal_id : Hash
  pub source_domain : DomainId
  pub target_domain : DomainId
  pub acknowledging_domain : DomainId
  pub target_domains : List DomainId
  pub payload_hash : Hash
  pub new_protocol_version : ℕ
  pub activation_epoch : EpochId
  pub acknowledged_epoch : EpochId

unfoldable pub leaf_hash : ⦃h : Hasher⦄ → GovernanceAckLeafHashInput → Hash
leaf_hash input = blake2_256 (
    u16 input.version
    ∷ bytes input.proposal_id
    ∷ domain input.source_domain
    ∷ domain input.target_domain
    ∷ domain input.acknowledging_domain
    ∷ domains input.target_domains
    ∷ bytes input.payload_hash
    ∷ u32 input.new_protocol_version
    ∷ u64 input.activation_epoch
    ∷ u64 input.acknowledged_epoch
    ∷ [])

pub record GovernanceAckLeaf : Type 0 where
  pub version : ℕ
  pub proposal_id : Hash
  pub source_domain : DomainId
  pub target_domain : DomainId
  pub acknowledging_domain : DomainId
  pub target_domains : List DomainId
  pub payload_hash : Hash
  pub new_protocol_version : ℕ
  pub activation_epoch : EpochId
  pub acknowledged_epoch : EpochId
  pub leaf_hash : Hash

abbrev pub from_hash_input : ⦃h : Hasher⦄ → GovernanceAckLeafHashInput → GovernanceAckLeaf
from_hash_input input = record {
  version = input.version;
  proposal_id = input.proposal_id;
  source_domain = input.source_domain;
  target_domain = input.target_domain;
  acknowledging_domain = input.acknowledging_domain;
  target_domains = input.target_domains;
  payload_hash = input.payload_hash;
  new_protocol_version = input.new_protocol_version;
  activation_epoch = input.activation_epoch;
  acknowledged_epoch = input.acknowledged_epoch;
  leaf_hash = leaf_hash input;
}

abbrev pub hash_input : GovernanceAckLeaf → GovernanceAckLeafHashInput
hash_input leaf = record {
  version = leaf.version;
  proposal_id = leaf.proposal_id;
  source_domain = leaf.source_domain;
  target_domain = leaf.target_domain;
  acknowledging_domain = leaf.acknowledging_domain;
  target_domains = leaf.target_domains;
  payload_hash = leaf.payload_hash;
  new_protocol_version = leaf.new_protocol_version;
  activation_epoch = leaf.activation_epoch;
  acknowledged_epoch = leaf.acknowledged_epoch;
}

abbrev pub compute_leaf_hash : ⦃h : Hasher⦄ → GovernanceAckLeaf → Hash
compute_leaf_hash leaf = leaf_hash (hash_input leaf)
