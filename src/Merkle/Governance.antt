-- ===== src/Merkle/Governance.antt =====
-- The governance family: the canonical order of the leaves, their root, and inclusion proofs, as in
-- crates/common-types/src/lib.rs. `encode` and `blake2_256` are a `Hasher`.
pub mod Binding
pub mod RoundTrip
use mathlib.Core.Option
use interplanetary_asynchron.Prelude.{
  ℕ, ◌%◌, ◌^◌, ◌<◌, compare, Ordering, ◌≡◌, refl, Bool, true, false, not, Option, none, some, List,
  [], ◌∷◌, map, length, get_elem?, In, All, position, All-at, nat_beq, if◌then◌else◌, nat_beq_iff,
  nat_eq, pair_eq,
}
use interplanetary_asynchron.Merkle.Family.{accepts-built, found-In_order}
use interplanetary_asynchron.Merkle.Tree.{root, siblings, accepts}
use interplanetary_asynchron.Prelude.Sorting.{then_with, sort_by}
use interplanetary_asynchron.Types.Governance.{
  leaf_hash, compute_leaf_hash, GovernanceLeaf, target_domain, proposal_id, ordering_domain,
  kind_order,
}
use interplanetary_asynchron.Types.Scale.{
  DomainId, domain_eq, domain_compare, Hash, EpochId, u32, u64, bytes, str, domain, Hasher,
  blake2_256,
}

abbrev governance_inclusion_proof_version : ℕ
governance_inclusion_proof_version = 1

pub record GovernanceInclusionProof : Type 0 where
  pub version : ℕ
  pub leaf : GovernanceLeaf
  pub leaf_index : ℕ
  pub leaf_count : ℕ
  pub siblings : List Hash

abbrev pub governance_leaf_ordering : GovernanceLeaf → GovernanceLeaf → Ordering
governance_leaf_ordering left right =
    then_with
      (then_with
        (then_with (domain_compare (target_domain left) (target_domain right))
          (compare (kind_order left) (kind_order right)))
        (compare (proposal_id left) (proposal_id right)))
      (domain_compare (ordering_domain left) (ordering_domain right))

abbrev pub sort_governance_leaves : List GovernanceLeaf → List GovernanceLeaf
sort_governance_leaves = sort_by governance_leaf_ordering

module _ ⦃h : Hasher⦄ where
  unfoldable pub governance_merkle_empty_root : DomainId → EpochId → ℕ → ℕ → Hash
  governance_merkle_empty_root domain_id epoch_id start_block_height end_block_height = blake2_256 (
      str "IALP:governance-merkle-empty:v1"
      ∷ domain domain_id
      ∷ u64 epoch_id
      ∷ u32 start_block_height
      ∷ u32 end_block_height
      ∷ [])

  unfoldable pub governance_merkle_parent_hash : Hash → Hash → Hash
  governance_merkle_parent_hash left right =
      blake2_256 (str "IALP:governance-merkle-node:v1" ∷ bytes left ∷ bytes right ∷ [])

  unfoldable pub governance_merkle_root : DomainId → EpochId → ℕ → ℕ → List GovernanceLeaf → Hash
  unfolding root
  governance_merkle_root domain_id epoch_id start_block_height end_block_height leaves =
      root governance_merkle_parent_hash
        (governance_merkle_empty_root domain_id epoch_id start_block_height end_block_height)
        (map leaf_hash (sort_governance_leaves leaves))

  governance_proof_at : List GovernanceLeaf → ℕ → GovernanceLeaf → GovernanceInclusionProof
  unfolding siblings
  governance_proof_at ordered leaf_index leaf = record {
    version = governance_inclusion_proof_version;
    leaf = leaf;
    leaf_index = leaf_index % 2 ^ 32;
    leaf_count = length ordered % 2 ^ 32;
    siblings =
        siblings governance_merkle_parent_hash 0 (length ordered) leaf_index
          (map leaf_hash ordered);
  }

  governance_proof_of : List GovernanceLeaf → Option ℕ → Option GovernanceInclusionProof
  unfolding governance_proof_at
  governance_proof_of ordered none = none
  governance_proof_of ordered (some leaf_index) =
      Option.map (governance_proof_at ordered leaf_index) (get_elem? ordered leaf_index)

  unfoldable pub build_governance_inclusion_proof :
      List GovernanceLeaf → Hash → Option GovernanceInclusionProof
  unfolding governance_proof_of
  build_governance_inclusion_proof leaves target_leaf_hash =
      let ordered = sort_governance_leaves leaves in
      governance_proof_of ordered
        (position (λ leaf. nat_beq (leaf_hash leaf) target_leaf_hash) ordered)

  unfoldable pub verify_governance_inclusion_proof : Hash → GovernanceInclusionProof → Bool
  unfolding accepts
  verify_governance_inclusion_proof governance_root proof =
      if not (nat_beq (leaf_hash proof.leaf) (compute_leaf_hash proof.leaf))
      then false
      else accepts governance_merkle_parent_hash governance_root proof.leaf_index proof.leaf_count
          (leaf_hash proof.leaf) proof.siblings

  -- A leaf carries the hash of its own fields.
  abbrev pub IsOwnLeaf : GovernanceLeaf → Type 0
  IsOwnLeaf leaf = leaf_hash leaf ≡ compute_leaf_hash leaf

  governance_proof_at-verifies :
      (leaves : List GovernanceLeaf) (i : ℕ) (leaf : GovernanceLeaf) (d : DomainId)
      (epoch first_block last_block : ℕ)
      → get_elem? (sort_governance_leaves leaves) i ≡ some leaf
      → IsOwnLeaf leaf
      → length leaves < 2 ^ 32
      → verify_governance_inclusion_proof
          (governance_merkle_root d epoch first_block last_block leaves)
          (governance_proof_at (sort_governance_leaves leaves) i leaf)
        ≡ true
  unfolding verify_governance_inclusion_proof governance_proof_at governance_merkle_root
  governance_proof_at-verifies leaves i leaf d epoch first_block last_block at own short =
      rw ((nat_beq_iff (leaf_hash leaf) (compute_leaf_hash leaf)).1 own) (
        accepts-built governance_merkle_parent_hash leaf_hash governance_leaf_ordering leaves
          (governance_merkle_empty_root d epoch first_block last_block) i leaf at short)

  -- For every governance leaf of an epoch, of fewer than 2 ^ 32 leaves that carry their own hashes,
  -- the builder returns a proof of one of the leaves with the same hash, and the verifier accepts it
  -- at the epoch's root.
  pub build_governance_inclusion_proof-verifies :
      (leaves : List GovernanceLeaf) (leaf : GovernanceLeaf) (d : DomainId)
      (epoch first_block last_block : ℕ)
      → In leaf leaves
      → All IsOwnLeaf leaves
      → length leaves < 2 ^ 32
      → (proof : GovernanceInclusionProof) × (build_governance_inclusion_proof leaves
            (leaf_hash leaf)
          ≡ some proof)
        × (leaf_hash proof.leaf ≡ leaf_hash leaf)
        × In proof.leaf leaves
        × (verify_governance_inclusion_proof
              (governance_merkle_root d epoch first_block last_block leaves)
              proof
            ≡ true)
  unfolding build_governance_inclusion_proof
  build_governance_inclusion_proof-verifies leaves leaf d epoch first_block last_block m own short =
      let same = λ (l : GovernanceLeaf). nat_beq (leaf_hash l) (leaf_hash leaf) in
      let (i, found, p, e, t, f) =
        found-In_order governance_merkle_parent_hash leaf_hash governance_leaf_ordering leaves 0
          same leaf m ((nat_beq_iff (leaf_hash leaf) (leaf_hash leaf)).1 refl) in
      (
        governance_proof_at (sort_governance_leaves leaves) i found,
        rw p (rw e),
        (nat_beq_iff (leaf_hash found) (leaf_hash leaf)).0 t,
        f,
        governance_proof_at-verifies leaves i found d epoch first_block last_block e
            (All-at IsOwnLeaf found leaves own f) short,
      )
