-- ===== src/Merkle/Imports/Binding.antt =====
-- What an accepted inclusion proof proves.
use interplanetary_asynchron.Prelude.{
  ℕ, ◌<◌, ◌≡◌, sym, subst, ◌∙◌, true, List, arith, length, In, All, All-tabulate, All-at, nat_eq,
  pair_eq,
}
use interplanetary_asynchron.Merkle.Family.{leaf_of_accepts}
use interplanetary_asynchron.Merkle.Imports.{
  HasOwnHash, IsBinding, leaf-eq, FinalizedImportInclusionProof, finalized_import_leaf_ordering,
  import_merkle_empty_root, import_merkle_parent_hash, import_merkle_root,
  verify_finalized_import_inclusion_proof,
}
use interplanetary_asynchron.Merkle.Soundness.{IsLeafHash}
use interplanetary_asynchron.Merkle.Tree.{accepts}
use interplanetary_asynchron.Types.Import.{hash_input, FinalizedImportLeaf}
use interplanetary_asynchron.Types.Scale.{DomainId, domain_eq, Hash, Hasher}

module _ ⦃h : Hasher⦄ where
  verified-cases :
      (top : Hash) (proof : FinalizedImportInclusionProof)
      → verify_finalized_import_inclusion_proof top proof ≡ true
      → HasOwnHash proof.leaf
        × (accepts import_merkle_parent_hash top proof.leaf_index proof.leaf_count
              proof.leaf.import_hash proof.siblings
            ≡ true)
  unfolding verify_finalized_import_inclusion_proof
  verified-cases top proof passes = ground arith

  own_hash-IsLeafHash :
      IsBinding
      → (l : FinalizedImportLeaf) → HasOwnHash l
      → IsLeafHash import_merkle_parent_hash l.import_hash
  own_hash-IsLeafHash binding l own a b e = binding.leaf_ne_parent (hash_input l) a b (sym own ∙ e)

  -- A proof that the verifier accepts at the root of a non-empty epoch proves one of its leaves, with
  -- all its fields, if the hash function binds and each leaf of the epoch carries its own hash.
  pub verify_finalized_import_inclusion_proof_sound :
      (binding : IsBinding) (leaves : List FinalizedImportLeaf)
      (proof : FinalizedImportInclusionProof)
      → (d : DomainId) (epoch start end : ℕ) → 0 < length leaves
      → All HasOwnHash leaves
      → verify_finalized_import_inclusion_proof (import_merkle_root d epoch start end leaves) proof
        ≡ true
      → In proof.leaf leaves
  unfolding import_merkle_root
  verify_finalized_import_inclusion_proof_sound binding leaves proof d epoch start end some_leaf own
        passes =
      let (own_hash, accepted) =
        verified-cases (import_merkle_root d epoch start end leaves) proof passes in
      let (leaf, m, e) =
        leaf_of_accepts import_merkle_parent_hash (λ l. l.import_hash)
          finalized_import_leaf_ordering leaves (import_merkle_empty_root d epoch start end)
          binding.parent_injective proof.leaf_index proof.leaf_count proof.leaf.import_hash
          proof.siblings some_leaf
          (All-tabulate (λ l. IsLeafHash import_merkle_parent_hash l.import_hash) leaves
            (λ l n. own_hash-IsLeafHash binding l (All-at HasOwnHash l leaves own n)))
          (own_hash-IsLeafHash binding proof.leaf own_hash) accepted in
      let same : hash_input leaf ≡ hash_input proof.leaf =
        binding.leaf_injective (hash_input leaf) (hash_input proof.leaf)
          (sym (All-at HasOwnHash leaf leaves own m) ∙ sym e ∙ own_hash) in
      subst (λ l. In l leaves) (leaf-eq leaf proof.leaf same (sym e)) m
