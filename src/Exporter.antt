-- ===== src/Exporter.antt =====
-- services/exporter/src/lib.rs: how the leaves of an epoch become one package for each domain that
-- they go to, and the envelope in which the relay gets it.
pub mod Grouping
pub mod Built
pub mod Accepted
use interplanetary_asynchron.Prelude.{
  ℕ, ◌-◌, compare, List, [], ◌∷◌, ◌++◌, map, length, dedup, leb, nat_beq, nat_eq, pair_eq,
}
use interplanetary_asynchron.Merkle.Exports.{
  sort_export_leaves, export_merkle_root, build_export_inclusion_proof,
}
use interplanetary_asynchron.Merkle.Governance.{
  sort_governance_leaves, governance_merkle_root, build_governance_inclusion_proof,
}
use interplanetary_asynchron.Merkle.Imports.{
  sort_finalized_import_leaves, import_merkle_root, build_finalized_import_inclusion_proof,
}
use interplanetary_asynchron.Packages.{
  RelayPackageEnvelope, new_envelope, SummaryCertificationBundle, CertifiedSummaryPackage,
  PackageCodec, from_bundle_with_mixed_proofs,
}
use interplanetary_asynchron.Prelude.Map.{Map, or_default, get, insert}
use interplanetary_asynchron.Prelude.Outcome.{Outcome, ok, ◌>>=◌, ◌>>◌, ensure, ok_or}
use interplanetary_asynchron.Prelude.Sorting.{sort_by}
use interplanetary_asynchron.Types.Export.{ExportLeaf}
use interplanetary_asynchron.Types.Governance.{leaf_hash, GovernanceLeaf, target_domain}
use interplanetary_asynchron.Types.Import.{FinalizedImportLeaf}
use interplanetary_asynchron.Types.Scale.{DomainId, domain_eq, ExportId, Hasher, u32_max}
use interplanetary_asynchron.Types.Summary.{EpochSummaryHeader}

-- `entry(key).or_insert_with(Vec::new).push(leaf)` for each leaf.
unfoldable pub group_by :
    {A : Type 0} → (A → DomainId) → List A → Map DomainId (List A) → Map DomainId (List A)
group_by key [] grouped = grouped
group_by key (leaf ∷ rest) grouped =
    group_by key rest
      (insert grouped (key leaf) (or_default [] (get grouped (key leaf)) ++ leaf ∷ []))

abbrev pub group_exports_by_target : List ExportLeaf → Map DomainId (List ExportLeaf)
group_exports_by_target leaves = group_by (λ leaf. leaf.target_domain) leaves []

abbrev pub group_finalized_imports_by_source :
    List FinalizedImportLeaf → Map DomainId (List FinalizedImportLeaf)
group_finalized_imports_by_source leaves = group_by (λ leaf. leaf.source_domain) leaves []

abbrev pub group_governance_by_target : List GovernanceLeaf → Map DomainId (List GovernanceLeaf)
group_governance_by_target leaves = group_by target_domain leaves []

pub record TargetPackageInputs : Type 0 where
  pub export_leaves : List ExportLeaf
  pub finalized_import_leaves : List FinalizedImportLeaf
  pub governance_leaves : List GovernanceLeaf

-- `TargetPackageInputs::default`.
abbrev pub no_inputs : TargetPackageInputs
no_inputs = record { export_leaves = []; finalized_import_leaves = []; governance_leaves = [] }

-- One loop over a map: `entry(target).or_insert_with(default)`, and one field of it set.
unfoldable pub combine_with :
    {A : Type 0}
    → (List A → TargetPackageInputs → TargetPackageInputs)
    → Map DomainId (List A)
    → Map DomainId TargetPackageInputs
    → Map DomainId TargetPackageInputs
combine_with set [] grouped = grouped
combine_with set ((target, leaves) ∷ rest) grouped =
    combine_with set rest
      (insert grouped target (set leaves (or_default no_inputs (get grouped target))))

unfoldable pub combine_target_inputs :
    Map DomainId (List ExportLeaf)
    → Map DomainId (List FinalizedImportLeaf)
    → Map DomainId (List GovernanceLeaf)
    → Map DomainId TargetPackageInputs
combine_target_inputs exports finalized_imports governance =
    combine_with (λ leaves inputs. record inputs { governance_leaves = leaves }) governance
      (combine_with (λ leaves inputs. record inputs { finalized_import_leaves = leaves })
        finalized_imports
        (combine_with (λ leaves inputs. record inputs { export_leaves = leaves }) exports []))

unfoldable pub collect_target_export_ids : TargetPackageInputs → List ExportId
collect_target_export_ids inputs = dedup (
    sort_by compare (
      map (λ leaf. leaf.export_id) inputs.export_leaves
      ++ map (λ leaf. leaf.export_id) inputs.finalized_import_leaves))

pub data ExporterError : Type 0 where
  missing_export_proof missing_finalized_import_proof missing_governance_proof : ExporterError
  root_mismatch too_many_proofs : ExporterError

-- `map(...).collect::<Result<Vec<_>>>()`.
unfoldable pub collect : {A B E : Type 0} → (A → Outcome E B) → List A → Outcome E (List B)
collect f [] = ok []
collect f (x ∷ xs) = do y ← f x; ys ← collect f xs; ok (y ∷ ys)

module _ ⦃h : Hasher⦄ (codec : PackageCodec) where
  -- The package of one target domain, from the epoch's sorted leaves. It has an inclusion proof and no
  -- artifacts, so that the test of that which follows in the source always passes.
  unfoldable pub target_package :
      EpochSummaryHeader
      → SummaryCertificationBundle
      → List ExportLeaf
      → List FinalizedImportLeaf
      → List GovernanceLeaf
      → TargetPackageInputs
      → Outcome ExporterError CertifiedSummaryPackage
  target_package header bundle leaves finalized_imports governance_leaves inputs = do
    export_proofs ←
        collect
          (λ leaf. ok_or (build_export_inclusion_proof leaves leaf.export_id) missing_export_proof)
          inputs.export_leaves
    import_proofs ←
        collect
          (λ leaf.
            ok_or (build_finalized_import_inclusion_proof finalized_imports leaf.export_id)
              missing_finalized_import_proof)
          inputs.finalized_import_leaves
    governance_proofs ←
        collect
          (λ leaf.
            ok_or (build_governance_inclusion_proof governance_leaves (leaf_hash leaf))
              missing_governance_proof)
          inputs.governance_leaves
    ok (
        from_bundle_with_mixed_proofs codec header bundle export_proofs import_proofs
          governance_proofs)

  -- `export_root`, `import_root` and `governance_root` of the header against the leaves.
  unfoldable pub check_roots :
      EpochSummaryHeader
      → List ExportLeaf
      → List FinalizedImportLeaf
      → List GovernanceLeaf
      → Outcome ExporterError (Unit {0})
  check_roots header leaves finalized_imports governance_leaves = do
    ensure
        (nat_beq
          (export_merkle_root header.domain_id header.epoch_id header.start_block_height
            header.end_block_height leaves)
          header.export_root)
        root_mismatch
    ensure
        (nat_beq
          (import_merkle_root header.domain_id header.epoch_id header.start_block_height
            header.end_block_height finalized_imports)
          header.import_root)
        root_mismatch
    ensure
        (nat_beq
          (governance_merkle_root header.domain_id header.epoch_id header.start_block_height
            header.end_block_height governance_leaves)
          header.governance_root)
        root_mismatch

  -- The work on a certified epoch: the packages by target domain.
  unfoldable pub epoch_packages :
      EpochSummaryHeader
      → SummaryCertificationBundle
      → List ExportLeaf
      → List FinalizedImportLeaf
      → List GovernanceLeaf
      → Outcome ExporterError (List (DomainId × CertifiedSummaryPackage))
  epoch_packages header bundle exports imports governance = do
    check_roots header exports imports governance
    let leaves = sort_export_leaves exports
    let finalized_imports = sort_finalized_import_leaves imports
    let governance_leaves = sort_governance_leaves governance
    let grouped_targets =
        combine_target_inputs (group_exports_by_target leaves)
          (group_finalized_imports_by_source finalized_imports)
          (group_governance_by_target governance_leaves)
    collect
        (λ entry.
          target_package header bundle leaves finalized_imports governance_leaves entry.1 >>= λ pkg.
          ok (entry.0, pkg))
        grouped_targets

-- What is submitted to the relay for a record of the index.
unfoldable pub relay_envelope :
    PackageCodec
    → DomainId
    → CertifiedSummaryPackage
    → ℕ
    → Outcome ExporterError RelayPackageEnvelope
relay_envelope codec target_domain pkg now = do
  ensure (leb (length pkg.inclusion_proofs - 1) u32_max) too_many_proofs
  ok (
      new_envelope pkg.header.domain_id target_domain pkg.header.epoch_id pkg.header.summary_hash
        pkg.package_hash (codec.encode_package pkg) (length pkg.inclusion_proofs - 1) now)
