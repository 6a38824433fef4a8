-- ===== src/Merkle/Exports/Binding.antt =====
-- What an accepted inclusion proof proves.
use interplanetary_asynchron.Prelude.{
  ℕ, ◌<◌, ◌≡◌, sym, subst, ◌∙◌, true, List, arith, length, In, All, All-tabulate, All-at, nat_eq,
  pair_eq,
}
use interplanetary_asynchron.Merkle.Exports.{
  ExportInclusionProof, export_leaf_ordering, export_merkle_empty_root, export_merkle_parent_hash,
  export_merkle_root, verify_export_inclusion_proof, HasOwnHash, IsBinding, leaf-eq,
}
use interplanetary_asynchron.Merkle.Family.{leaf_of_accepts}
use interplanetary_asynchron.Merkle.Soundness.{IsLeafHash}
use interplanetary_asynchron.Merkle.Tree.{accepts}
use interplanetary_asynchron.Types.Export.{ExportLeaf, hash_input}
use interplanetary_asynchron.Types.Scale.{DomainId, domain_eq, Hash, Hasher}

module _ ⦃h : Hasher⦄ where
  verified-cases :
      (top : Hash) (proof : ExportInclusionProof)
      → verify_export_inclusion_proof top proof ≡ true
      → HasOwnHash proof.leaf
        × (accepts export_merkle_parent_hash top proof.leaf_index proof.leaf_count
              proof.leaf.export_hash proof.siblings
            ≡ true)
  unfolding verify_export_inclusion_proof
  verified-cases top proof passes = ground arith

  own_hash-IsLeafHash :
      IsBinding
      → (l : ExportLeaf) → HasOwnHash l
      → IsLeafHash export_merkle_parent_hash l.export_hash
  own_hash-IsLeafHash binding l own a b e = binding.leaf_ne_parent (hash_input l) a b (sym own ∙ e)

  -- A proof that the verifier accepts at the root of a non-empty epoch proves one of its leaves, with
  -- all its fields, if the hash function binds and each leaf of the epoch carries its own hash.
  pub verify_export_inclusion_proof_sound :
      (binding : IsBinding) (leaves : List ExportLeaf) (proof : ExportInclusionProof)
      → (d : DomainId) (epoch start end : ℕ) → 0 < length leaves
      → All HasOwnHash leaves
      → verify_export_inclusion_proof (export_merkle_root d epoch start end leaves) proof ≡ true
      → In proof.leaf leaves
  unfolding export_merkle_root
  verify_export_inclusion_proof_sound binding leaves proof d epoch start end some_leaf own passes =
      let (own_hash, accepted) =
        verified-cases (export_merkle_root d epoch start end leaves) proof passes in
      let (leaf, m, e) =
        leaf_of_accepts export_merkle_parent_hash (λ l. l.export_hash) export_leaf_ordering leaves
          (export_merkle_empty_root d epoch start end) binding.parent_injective proof.leaf_index
          proof.leaf_count proof.leaf.export_hash proof.siblings some_leaf
          (All-tabulate (λ l. IsLeafHash export_merkle_parent_hash l.export_hash) leaves
            (λ l n. own_hash-IsLeafHash binding l (All-at HasOwnHash l leaves own n)))
          (own_hash-IsLeafHash binding proof.leaf own_hash) accepted in
      let same : hash_input leaf ≡ hash_input proof.leaf =
        binding.leaf_injective (hash_input leaf) (hash_input proof.leaf)
          (sym (All-at HasOwnHash leaf leaves own m) ∙ sym e ∙ own_hash) in
      subst (λ l. In l leaves) (leaf-eq leaf proof.leaf same (sym e)) m
