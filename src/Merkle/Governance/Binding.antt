-- ===== src/Merkle/Governance/Binding.antt =====
-- What an accepted inclusion proof of a governance leaf proves.
use interplanetary_asynchron.Types.ProposalLeaf
use interplanetary_asynchron.Types.AckLeaf
use interplanetary_asynchron.Prelude.{◌≡◌, ◌≢◌, nat_eq, pair_eq}
use interplanetary_asynchron.Merkle.Governance.{governance_merkle_parent_hash}
use interplanetary_asynchron.Types.ProposalLeaf.{GovernanceProposalLeafHashInput}
use interplanetary_asynchron.Types.AckLeaf.{GovernanceAckLeafHashInput}
use interplanetary_asynchron.Types.Governance.{leaf_hash}
use interplanetary_asynchron.Types.Scale.{domain_eq, Hash, Hasher}

module _ ⦃h : Hasher⦄ where
  -- The hash tells apart the leaves of both kinds, the pairs, and the leaves from the pairs.
  pub record IsBinding : Type 0 where
    pub proposal_injective :
        (x y : GovernanceProposalLeafHashInput)
        → ProposalLeaf.leaf_hash x ≡ ProposalLeaf.leaf_hash y
        → x ≡ y
    pub ack_injective :
        (x y : GovernanceAckLeafHashInput) → AckLeaf.leaf_hash x ≡ AckLeaf.leaf_hash y → x ≡ y
    pub proposal_ne_ack :
        (x : GovernanceProposalLeafHashInput) (y : GovernanceAckLeafHashInput)
        → ProposalLeaf.leaf_hash x ≢ AckLeaf.leaf_hash y
    pub parent_injective :
        (a b c d : Hash)
        → governance_merkle_parent_hash a b ≡ governance_merkle_parent_hash c d
        → (a ≡ c) × (b ≡ d)
    pub proposal_ne_parent :
        (x : GovernanceProposalLeafHashInput) (l r : Hash)
        → ProposalLeaf.leaf_hash x ≢ governance_merkle_parent_hash l r
    pub ack_ne_parent :
        (x : GovernanceAckLeafHashInput) (l r : Hash)
        → AckLeaf.leaf_hash x ≢ governance_merkle_parent_hash l r
