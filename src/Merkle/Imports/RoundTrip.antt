-- ===== src/Merkle/Imports/RoundTrip.antt =====
-- Every leaf of an epoch has an inclusion proof that the verifier accepts.
use interplanetary_asynchron.Prelude.{
  ℕ, ◌^◌, ◌<◌, ◌≡◌, refl, sym, subst, inl, inr, true, some, List, arith, length, get_elem?, In, All,
  position, All-at, nat_beq, nat_beq_iff, Option-cases, nat_eq, pair_eq,
}
use interplanetary_asynchron.Merkle.Family.{accepts-built, found-In_order, found_leaf}
use interplanetary_asynchron.Merkle.Imports.{
  HasOwnHash, FinalizedImportInclusionProof, finalized_import_leaf_ordering,
  sort_finalized_import_leaves, import_merkle_empty_root, import_merkle_parent_hash,
  import_merkle_root, build_finalized_import_inclusion_proof,
  verify_finalized_import_inclusion_proof, import_proof_at, import_proof_of,
}
use interplanetary_asynchron.Types.Import.{FinalizedImportLeaf, compute_import_hash}
use interplanetary_asynchron.Types.Scale.{DomainId, domain_eq, ExportId, Hasher}

module _ ⦃h : Hasher⦄ where
  import_proof_at-verifies :
      (leaves : List FinalizedImportLeaf) (i : ℕ) (leaf : FinalizedImportLeaf) (d : DomainId)
      (epoch start end : ℕ)
      → get_elem? (sort_finalized_import_leaves leaves) i ≡ some leaf
      → HasOwnHash leaf
      → length leaves < 2 ^ 32
      → verify_finalized_import_inclusion_proof
          (import_merkle_root d epoch start end leaves)
          (import_proof_at (sort_finalized_import_leaves leaves) i leaf)
        ≡ true
  unfolding verify_finalized_import_inclusion_proof import_proof_at import_merkle_root
  import_proof_at-verifies leaves i leaf d epoch start end at own short =
      rw ((nat_beq_iff leaf.import_hash (compute_import_hash leaf)).1 own) (
        accepts-built import_merkle_parent_hash (λ l. l.import_hash) finalized_import_leaf_ordering
          leaves (import_merkle_empty_root d epoch start end) i leaf at short)

  -- For every leaf of an epoch, of fewer than 2 ^ 32 leaves that carry their own hashes, the
  -- builder returns a proof of one of the leaves with the same export id, and the verifier accepts it
  -- at the epoch's root.
  pub build_finalized_import_inclusion_proof-verifies :
      (leaves : List FinalizedImportLeaf) (leaf : FinalizedImportLeaf) (d : DomainId)
      (epoch start end : ℕ)
      → In leaf leaves
      → All HasOwnHash leaves
      → length leaves < 2 ^ 32
      → (proof : FinalizedImportInclusionProof) × (build_finalized_import_inclusion_proof leaves
            leaf.export_id
          ≡ some proof)
        × (proof.leaf.export_id ≡ leaf.export_id)
        × In proof.leaf leaves
        × (verify_finalized_import_inclusion_proof
              (import_merkle_root d epoch start end leaves)
              proof
            ≡ true)
  unfolding build_finalized_import_inclusion_proof
  build_finalized_import_inclusion_proof-verifies leaves leaf d epoch start end m own short =
      let same = λ (l : FinalizedImportLeaf). nat_beq l.export_id leaf.export_id in
      let (i, found, p, e, t, f) =
        found-In_order import_merkle_parent_hash (λ l. l.import_hash) finalized_import_leaf_ordering
          leaves 0 same leaf m ((nat_beq_iff leaf.export_id leaf.export_id).1 refl) in
      (
        import_proof_at (sort_finalized_import_leaves leaves) i found,
        rw p (rw e),
        (nat_beq_iff found.export_id leaf.export_id).0 t,
        f,
        import_proof_at-verifies leaves i found d epoch start end e
            (All-at HasOwnHash found leaves own f) short,
      )

  -- A proof that the builder returns is of one of the leaves, with the export id that it was asked for.
  pub build_finalized_import_inclusion_proof-leaf :
      (leaves : List FinalizedImportLeaf) (id : ExportId) (proof : FinalizedImportInclusionProof)
      → build_finalized_import_inclusion_proof leaves id ≡ some proof
      → In proof.leaf leaves × (proof.leaf.export_id ≡ id)
  unfolding build_finalized_import_inclusion_proof import_proof_of import_proof_at
  build_finalized_import_inclusion_proof-leaf leaves id proof h =
      let same = λ (l : FinalizedImportLeaf). nat_beq (l.export_id) id in
      elim (Option-cases (position same (sort_finalized_import_leaves leaves))) [
        | inl missing ↦ absurd (ground arith)
        | inr (i, p) ↦
            let (leaf, at, t, m) = found_leaf finalized_import_leaf_ordering leaves same i p in
            let e : proof.leaf ≡ leaf = ground arith in
            (subst (λ l. In l leaves) (sym e) m, ground arith)
      ]
