-- ===== src/Merkle/Exports/RoundTrip.antt =====
-- Every leaf of an epoch has an inclusion proof that the verifier accepts.
use interplanetary_asynchron.Prelude.{
  ℕ, ◌^◌, ◌<◌, ◌≡◌, refl, sym, subst, inl, inr, true, some, List, arith, length, get_elem?, In, All,
  position, All-at, nat_beq, nat_beq_iff, Option-cases, nat_eq, pair_eq,
}
use interplanetary_asynchron.Merkle.Exports.{
  ExportInclusionProof, export_leaf_ordering, sort_export_leaves, export_merkle_empty_root,
  export_merkle_parent_hash, export_merkle_root, build_export_inclusion_proof,
  verify_export_inclusion_proof, HasOwnHash, export_proof_at, export_proof_of,
}
use interplanetary_asynchron.Merkle.Family.{accepts-built, found-In_order, found_leaf}
use interplanetary_asynchron.Types.Export.{ExportLeaf, compute_export_hash}
use interplanetary_asynchron.Types.Scale.{DomainId, domain_eq, ExportId, Hasher}

module _ ⦃h : Hasher⦄ where
  export_proof_at-verifies :
      (leaves : List ExportLeaf) (i : ℕ) (leaf : ExportLeaf) (d : DomainId) (epoch start end : ℕ)
      → get_elem? (sort_export_leaves leaves) i ≡ some leaf
      → HasOwnHash leaf
      → length leaves < 2 ^ 32
      → verify_export_inclusion_proof
          (export_merkle_root d epoch start end leaves)
          (export_proof_at (sort_export_leaves leaves) i leaf)
        ≡ true
  unfolding verify_export_inclusion_proof export_proof_at export_merkle_root
  export_proof_at-verifies leaves i leaf d epoch start end at own short =
      rw ((nat_beq_iff leaf.export_hash (compute_export_hash leaf)).1 own) (
        accepts-built export_merkle_parent_hash (λ l. l.export_hash) export_leaf_ordering leaves
          (export_merkle_empty_root d epoch start end) i leaf at short)

  -- For every leaf of an epoch, of fewer than 2 ^ 32 leaves that carry their own hashes, the
  -- builder returns a proof of one of the leaves with the same export id, and the verifier accepts it
  -- at the epoch's root.
  pub build_export_inclusion_proof-verifies :
      (leaves : List ExportLeaf) (leaf : ExportLeaf) (d : DomainId) (epoch start end : ℕ)
      → In leaf leaves
      → All HasOwnHash leaves
      → length leaves < 2 ^ 32
      → (proof : ExportInclusionProof) × (build_export_inclusion_proof leaves leaf.export_id
          ≡ some proof)
        × (proof.leaf.export_id ≡ leaf.export_id)
        × In proof.leaf leaves
        × (verify_export_inclusion_proof (export_merkle_root d epoch start end leaves) proof ≡ true)
  unfolding build_export_inclusion_proof
  build_export_inclusion_proof-verifies leaves leaf d epoch start end m own short =
      let same = λ (l : ExportLeaf). nat_beq l.export_id leaf.export_id in
      let (i, found, p, e, t, f) =
        found-In_order export_merkle_parent_hash (λ l. l.export_hash) export_leaf_ordering leaves 0
          same leaf m ((nat_beq_iff leaf.export_id leaf.export_id).1 refl) in
      (
        export_proof_at (sort_export_leaves leaves) i found,
        rw p (rw e),
        (nat_beq_iff found.export_id leaf.export_id).0 t,
        f,
        export_proof_at-verifies leaves i found d epoch start end e
            (All-at HasOwnHash found leaves own f) short,
      )

  -- A proof that the builder returns is of one of the leaves, with the export id that it was asked
  -- for.
  pub build_export_inclusion_proof-leaf :
      (leaves : List ExportLeaf) (id : ExportId) (proof : ExportInclusionProof)
      → build_export_inclusion_proof leaves id ≡ some proof
      → In proof.leaf leaves × (proof.leaf.export_id ≡ id)
  unfolding build_export_inclusion_proof export_proof_of export_proof_at
  build_export_inclusion_proof-leaf leaves id proof h =
      let same = λ (l : ExportLeaf). nat_beq l.export_id id in
      elim (Option-cases (position same (sort_export_leaves leaves))) [
        | inl missing ↦ absurd (ground arith)
        | inr (i, p) ↦
            let (leaf, at, t, m) = found_leaf export_leaf_ordering leaves same i p in
            let e : proof.leaf ≡ leaf = ground arith in
            (subst (λ l. In l leaves) (sym e) m, ground arith)
      ]
