-- ===== src/Merkle/Imports.antt =====
-- The finalized-import family: the canonical order of the leaves, their root, and inclusion proofs, as in
-- crates/common-types/src/lib.rs. `encode` and `blake2_256` are a `Hasher`.
pub mod RoundTrip
pub mod Binding
use mathlib.Core.Option
use interplanetary_asynchron.Prelude.{
  ℕ, ◌%◌, ◌^◌, compare, Ordering, ◌≡◌, ◌≢◌, Bool, false, not, Option, none, some, List, [], ◌∷◌,
  map, length, get_elem?, position, nat_beq, if◌then◌else◌, nat_eq, pair_eq,
}
use interplanetary_asynchron.Merkle.Tree.{root, siblings, accepts}
use interplanetary_asynchron.Prelude.Sorting.{sort_by}
use interplanetary_asynchron.Types.Export.{export_id}
use interplanetary_asynchron.Types.Import.{
  hash_input, FinalizedImportLeafHashInput, import_hash, FinalizedImportLeaf, compute_import_hash,
}
use interplanetary_asynchron.Types.Scale.{
  DomainId, domain_eq, Hash, ExportId, EpochId, u32, u64, bytes, str, domain, Hasher, blake2_256,
}
use interplanetary_asynchron.Types.Summary.{summary_hash}

abbrev finalized_import_inclusion_proof_version : ℕ
finalized_import_inclusion_proof_version = 1

pub record FinalizedImportInclusionProof : Type 0 where
  pub version : ℕ
  pub leaf : FinalizedImportLeaf
  pub leaf_index : ℕ
  pub leaf_count : ℕ
  pub siblings : List Hash

abbrev pub finalized_import_leaf_ordering : FinalizedImportLeaf → FinalizedImportLeaf → Ordering
finalized_import_leaf_ordering left right = compare left.export_id right.export_id

abbrev pub sort_finalized_import_leaves : List FinalizedImportLeaf → List FinalizedImportLeaf
sort_finalized_import_leaves = sort_by finalized_import_leaf_ordering

module _ ⦃h : Hasher⦄ where
  unfoldable pub import_merkle_empty_root : DomainId → EpochId → ℕ → ℕ → Hash
  import_merkle_empty_root domain_id epoch_id start_block_height end_block_height = blake2_256 (
      str "IALP:import-merkle-empty:v1"
      ∷ domain domain_id
      ∷ u64 epoch_id
      ∷ u32 start_block_height
      ∷ u32 end_block_height
      ∷ [])

  unfoldable pub import_merkle_parent_hash : Hash → Hash → Hash
  import_merkle_parent_hash left right =
      blake2_256 (str "IALP:import-merkle-node:v1" ∷ bytes left ∷ bytes right ∷ [])

  unfoldable pub import_merkle_root : DomainId → EpochId → ℕ → ℕ → List FinalizedImportLeaf → Hash
  unfolding root
  import_merkle_root domain_id epoch_id start_block_height end_block_height leaves =
      root import_merkle_parent_hash
        (import_merkle_empty_root domain_id epoch_id start_block_height end_block_height)
        (map (λ leaf. leaf.import_hash) (sort_finalized_import_leaves leaves))

  import_proof_at :
      List FinalizedImportLeaf → ℕ → FinalizedImportLeaf → FinalizedImportInclusionProof
  unfolding siblings
  import_proof_at ordered leaf_index leaf = record {
    version = finalized_import_inclusion_proof_version;
    leaf = leaf;
    leaf_index = leaf_index % 2 ^ 32;
    leaf_count = length ordered % 2 ^ 32;
    siblings =
        siblings import_merkle_parent_hash 0 (length ordered) leaf_index
          (map (λ l. l.import_hash) ordered);
  }

  -- `ordered[leaf_index]` is in range, since `position` returned the index.
  import_proof_of : List FinalizedImportLeaf → Option ℕ → Option FinalizedImportInclusionProof
  unfolding import_proof_at
  import_proof_of ordered none = none
  import_proof_of ordered (some leaf_index) =
      Option.map (import_proof_at ordered leaf_index) (get_elem? ordered leaf_index)

  unfoldable pub build_finalized_import_inclusion_proof :
      List FinalizedImportLeaf → ExportId → Option FinalizedImportInclusionProof
  unfolding import_proof_of
  build_finalized_import_inclusion_proof leaves export_id =
      let ordered = sort_finalized_import_leaves leaves in
      import_proof_of ordered (position (λ leaf. nat_beq leaf.export_id export_id) ordered)

  unfoldable pub verify_finalized_import_inclusion_proof :
      Hash → FinalizedImportInclusionProof → Bool
  unfolding accepts
  verify_finalized_import_inclusion_proof import_root proof =
      if not (nat_beq proof.leaf.import_hash (compute_import_hash proof.leaf))
      then false
      else accepts import_merkle_parent_hash import_root proof.leaf_index proof.leaf_count
          proof.leaf.import_hash proof.siblings

  -- A leaf carries the hash of its own fields, as `from_hash_input` makes it.
  abbrev pub HasOwnHash : FinalizedImportLeaf → Type 0
  HasOwnHash leaf = leaf.import_hash ≡ compute_import_hash leaf

  -- What a hash function must do for the proofs of a family to bind: no two leaves and no two pairs
  -- of children collide, and no leaf collides with an inner node.
  pub record IsBinding : Type 0 where
    pub leaf_injective :
        (x y : FinalizedImportLeafHashInput) → import_hash x ≡ import_hash y → x ≡ y
    pub parent_injective :
        (a b c d : Hash)
        → import_merkle_parent_hash a b ≡ import_merkle_parent_hash c d
        → (a ≡ c) × (b ≡ d)
    pub leaf_ne_parent :
        (x : FinalizedImportLeafHashInput) (l r : Hash)
        → import_hash x ≢ import_merkle_parent_hash l r

  -- Leaves with the same fields and the same recorded hash are the same.
  pub leaf-eq :
      (a b : FinalizedImportLeaf)
      → hash_input a ≡ hash_input b
      → a.import_hash ≡ b.import_hash
      → a ≡ b
  leaf-eq a b p q = λ i. record {
    version = (p i).version;
    export_id = (p i).export_id;
    source_domain = (p i).source_domain;
    target_domain = (p i).target_domain;
    recipient = (p i).recipient;
    amount = (p i).amount;
    source_epoch_id = (p i).source_epoch_id;
    summary_hash = (p i).summary_hash;
    package_hash = (p i).package_hash;
    import_hash = q i;
  }
