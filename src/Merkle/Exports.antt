-- ===== src/Merkle/Exports.antt =====
-- The export family: the canonical order of the leaves, their root, and inclusion proofs, as in
-- crates/common-types/src/lib.rs. `encode` and `blake2_256` are a `Hasher`.
pub mod RoundTrip
pub mod Binding
use interplanetary_asynchron.Prelude.{
  ℕ, ◌%◌, ◌^◌, ◌<◌, ◌≡◌, ◌≢◌, refl, sym, subst, ◌∙◌, Bool, true, false, not, List, [], ◌∷◌, map,
  Option, none, some, Ordering, compare, length, length-map, get_or, get_or-map, get_elem?,
  get_elem?-lt, In, All, All-at, In-map, All-map, All-tabulate, position, position-eq_some,
  position_found, nat_beq, nat_eq, nat_beq_iff, if◌then◌else◌, arith,
}
use mathlib.Core.Option
use interplanetary_asynchron.Prelude.Sorting.{
  then_with, sort_by, length-sort_by, In-sort_by, All-sort_by,
}
use interplanetary_asynchron.Types.Scale.{
  DomainId, Hash, ExportId, EpochId, Hasher, blake2_256, str, domain, u64, u32, bytes,
}
use interplanetary_asynchron.Types.Export.{
  ExportLeaf, ExportLeafHashInput, export_hash, hash_input, compute_export_hash,
}
use interplanetary_asynchron.Merkle.Tree.{root, siblings, accepts}
use interplanetary_asynchron.Merkle.Paths.{accepts-siblings}
use interplanetary_asynchron.Merkle.Soundness.{IsLeafHash, In-of_climb, climb-of_accepts}

abbrev export_inclusion_proof_version : ℕ
export_inclusion_proof_version = 1

pub record ExportInclusionProof : Type 0 where
  pub version : ℕ
  pub leaf : ExportLeaf
  pub leaf_index : ℕ
  pub leaf_count : ℕ
  pub siblings : List Hash

abbrev pub export_leaf_ordering : ExportLeaf → ExportLeaf → Ordering
export_leaf_ordering left right =
    then_with
      (then_with (compare left.source_block_height right.source_block_height)
        (compare left.extrinsic_index right.extrinsic_index))
      (compare left.export_id right.export_id)

abbrev pub sort_export_leaves : List ExportLeaf → List ExportLeaf
sort_export_leaves = sort_by export_leaf_ordering

module _ ⦃h : Hasher⦄ where
  unfoldable pub export_merkle_empty_root : DomainId → EpochId → ℕ → ℕ → Hash
  export_merkle_empty_root domain_id epoch_id start_block_height end_block_height = blake2_256 (
      str "IALP:export-merkle-empty:v1"
      ∷ domain domain_id
      ∷ u64 epoch_id
      ∷ u32 start_block_height
      ∷ u32 end_block_height
      ∷ [])

  unfoldable pub export_merkle_parent_hash : Hash → Hash → Hash
  export_merkle_parent_hash left right =
      blake2_256 (str "IALP:export-merkle-node:v1" ∷ bytes left ∷ bytes right ∷ [])

  unfoldable pub export_merkle_root : DomainId → EpochId → ℕ → ℕ → List ExportLeaf → Hash
  unfolding root
  export_merkle_root domain_id epoch_id start_block_height end_block_height leaves =
      root export_merkle_parent_hash
        (export_merkle_empty_root domain_id epoch_id start_block_height end_block_height)
        (map (λ leaf. leaf.export_hash) (sort_export_leaves leaves))

  export_proof_at : List ExportLeaf → ℕ → ExportLeaf → ExportInclusionProof
  unfolding siblings
  export_proof_at ordered leaf_index leaf = record {
    version = export_inclusion_proof_version;
    leaf = leaf;
    leaf_index = leaf_index % 2 ^ 32;
    leaf_count = length ordered % 2 ^ 32;
    siblings =
        siblings export_merkle_parent_hash 0 (length ordered) leaf_index
          (map (λ l. l.export_hash) ordered);
  }

  -- `ordered[leaf_index]` is in range, since `position` returned the index.
  export_proof_of : List ExportLeaf → Option ℕ → Option ExportInclusionProof
  unfolding export_proof_at
  export_proof_of ordered none = none
  export_proof_of ordered (some leaf_index) =
      Option.map (export_proof_at ordered leaf_index) (get_elem? ordered leaf_index)

  unfoldable pub build_export_inclusion_proof :
      List ExportLeaf → ExportId → Option ExportInclusionProof
  unfolding export_proof_of
  build_export_inclusion_proof leaves export_id =
      let ordered = sort_export_leaves leaves in
      export_proof_of ordered (position (λ leaf. nat_beq leaf.export_id export_id) ordered)

  unfoldable pub verify_export_inclusion_proof : Hash → ExportInclusionProof → Bool
  unfolding accepts
  verify_export_inclusion_proof export_root proof =
      if not (nat_beq proof.leaf.export_hash (compute_export_hash proof.leaf))
      then false
      else accepts export_merkle_parent_hash export_root proof.leaf_index proof.leaf_count
          proof.leaf.export_hash proof.siblings

  -- A leaf carries the hash of its own fields, as `from_hash_input` makes it.
  abbrev pub HasOwnHash : ExportLeaf → Type 0
  HasOwnHash leaf = leaf.export_hash ≡ compute_export_hash leaf

  -- What a hash function must do for the proofs of a family to bind: no two leaves and no two pairs
  -- of children collide, and no leaf collides with an inner node.
  pub record IsBinding : Type 0 where
    pub leaf_injective : (x y : ExportLeafHashInput) → export_hash x ≡ export_hash y → x ≡ y
    pub parent_injective :
        (a b c d : Hash)
        → export_merkle_parent_hash a b ≡ export_merkle_parent_hash c d
        → (a ≡ c) × (b ≡ d)
    pub leaf_ne_parent :
        (x : ExportLeafHashInput) (l r : Hash) → export_hash x ≢ export_merkle_parent_hash l r

  -- Leaves with the same fields and the same recorded hash are the same.
  pub leaf-eq :
      (a b : ExportLeaf) → hash_input a ≡ hash_input b → a.export_hash ≡ b.export_hash → a ≡ b
  leaf-eq a b p q = λ i. record {
    version = (p i).version;
    export_id = (p i).export_id;
    source_domain = (p i).source_domain;
    target_domain = (p i).target_domain;
    sender = (p i).sender;
    recipient = (p i).recipient;
    amount = (p i).amount;
    source_epoch_id = (p i).source_epoch_id;
    source_block_height = (p i).source_block_height;
    extrinsic_index = (p i).extrinsic_index;
    export_hash = q i;
  }
