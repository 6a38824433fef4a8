-- ===== src/Merkle/Governance/RoundTrip.antt =====
-- What the builder of governance proofs returns.
use interplanetary_asynchron.Prelude.{
  ◌≡◌, sym, subst, inl, inr, some, List, arith, In, position, nat_beq, Option-cases, nat_eq,
  pair_eq,
}
use interplanetary_asynchron.Merkle.Family.{found_leaf}
use interplanetary_asynchron.Merkle.Governance.{
  GovernanceInclusionProof, governance_leaf_ordering, sort_governance_leaves,
  build_governance_inclusion_proof, governance_proof_at, governance_proof_of,
}
use interplanetary_asynchron.Types.Governance.{leaf_hash, GovernanceLeaf}
use interplanetary_asynchron.Types.Scale.{domain_eq, Hash, Hasher}

module _ ⦃h : Hasher⦄ where
  -- A proof that the builder returns is of one of the leaves, with the leaf hash that it was asked for.
  pub build_governance_inclusion_proof-leaf :
      (leaves : List GovernanceLeaf) (id : Hash) (proof : GovernanceInclusionProof)
      → build_governance_inclusion_proof leaves id ≡ some proof
      → In proof.leaf leaves × (leaf_hash proof.leaf ≡ id)
  unfolding build_governance_inclusion_proof governance_proof_of governance_proof_at
  build_governance_inclusion_proof-leaf leaves id proof h =
      let same = λ (l : GovernanceLeaf). nat_beq (leaf_hash l) id in
      elim (Option-cases (position same (sort_governance_leaves leaves))) [
        | inl missing ↦ absurd (ground arith)
        | inr (i, p) ↦
            let (leaf, at, t, m) = found_leaf governance_leaf_ordering leaves same i p in
            let e : proof.leaf ≡ leaf = ground arith in
            (subst (λ l. In l leaves) (sym e) m, ground arith)
      ]
