-- ===== src/Exporter/Built.antt =====
-- The package of a target consists of proofs that go there.
use mathlib.Core.List.{map-append}
use interplanetary_asynchron.Prelude.{
  suc, ◌<◌, ◌≡◌, refl, sym, ap, ◌∙◌, inl, inr, List, [], ◌∷◌, ◌++◌, map, arith, length, In, All,
  length-map, length-append, All-map, All-append, All-tabulate, All-at, nat_eq, pair_eq,
}
use interplanetary_asynchron.Exporter.{
  TargetPackageInputs, missing_export_proof, missing_finalized_import_proof,
  missing_governance_proof, collect, target_package,
}
use interplanetary_asynchron.Exporter.Grouping.{IsFilledFor}
use interplanetary_asynchron.Merkle.Exports.{
  ExportInclusionProof, export_leaf_ordering, sort_export_leaves, build_export_inclusion_proof,
}
use interplanetary_asynchron.Merkle.Exports.RoundTrip.{build_export_inclusion_proof-leaf}
use interplanetary_asynchron.Merkle.Governance.{
  GovernanceInclusionProof, governance_leaf_ordering, sort_governance_leaves,
  build_governance_inclusion_proof,
}
use interplanetary_asynchron.Merkle.Governance.RoundTrip.{build_governance_inclusion_proof-leaf}
use interplanetary_asynchron.Merkle.Imports.{
  FinalizedImportInclusionProof, finalized_import_leaf_ordering, sort_finalized_import_leaves,
  build_finalized_import_inclusion_proof,
}
use interplanetary_asynchron.Merkle.Imports.RoundTrip.{build_finalized_import_inclusion_proof-leaf}
use interplanetary_asynchron.Packages.{
  SummaryCertificationBundle, InclusionProof, summary_header_storage_v1, export_v1,
  finalized_import_v1, governance_v1, CertifiedSummaryPackage, PackageCodec, from_fields,
  from_bundle_with_mixed_proofs,
}
use interplanetary_asynchron.Prelude.Outcome.{Outcome, ok, ok_or, >>=-ok, ok_injective}
use interplanetary_asynchron.Prelude.Sorting.{In-of_sort_by}
use interplanetary_asynchron.Relay.Envelope.Accepted.{IsAddressedLeaf, IsAddressed}
use interplanetary_asynchron.Relay.Envelope.RoundTrip.{package_of}
use interplanetary_asynchron.Types.Governance.{leaf_hash}
use interplanetary_asynchron.Types.Export.{ExportLeaf}
use interplanetary_asynchron.Types.Governance.{GovernanceLeaf, proposal_v1, ack_v1, target_domain}
use interplanetary_asynchron.Types.Import.{FinalizedImportLeaf}
use interplanetary_asynchron.Types.Scale.{DomainId, domain_eq, Hasher}
use interplanetary_asynchron.Types.Summary.{EpochSummaryHeader}

pub collect-ok :
    {A B E : Type 0} (f : A → Outcome E B) (xs : List A) (ys : List B)
    → collect f xs ≡ ok ys
    → All (λ y. (x : A) × In x xs × (f x ≡ ok y)) ys × (length ys ≡ length xs)
unfolding collect
collect-ok f [] ys h = let e : ys ≡ [] = ground arith in rw e (tt, refl)
collect-ok {A} {B} {E} f (x ∷ xs) ys h =
    let (y, here, h1) = >>=-ok _ _ _ h in
    let (rest, more, h2) = >>=-ok _ _ _ h1 in
    let e : ys ≡ y ∷ rest = ground arith in
    let (all, count) = collect-ok f xs rest more in
    let wider : All (λ z. (w : A) × In w (x ∷ xs) × (f w ≡ ok z)) rest = All-tabulate _ rest (λ z m.
      let (w, n, at) = All-at (λ z. (w : A) × In w xs × (f w ≡ ok z)) z rest all m in
      (w, inr n, at)) in
    rw e (((x, inl refl, here), wider), ap suc count)

abbrev GovernanceFits : EpochSummaryHeader → GovernanceLeaf → Type 0
GovernanceFits header (proposal_v1 leaf) =
    (leaf.source_domain ≡ header.domain_id) × (leaf.approval_epoch ≡ header.epoch_id)
GovernanceFits header (ack_v1 leaf) = leaf.acknowledged_epoch ≡ header.epoch_id

-- What the chain gives the exporter for an epoch: the epoch's own leaves, no two of a kind with the
-- same identifier.
pub record IsEpochOf (header : EpochSummaryHeader) (exports : List ExportLeaf)
    (imports : List FinalizedImportLeaf) (governance : List GovernanceLeaf) : Type 0 where
  pub exported_here :
      (l : ExportLeaf)
      → In l exports
      → (l.source_domain ≡ header.domain_id) × (l.source_epoch_id ≡ header.epoch_id)
  pub imported_here : (l : FinalizedImportLeaf) → In l imports → l.target_domain ≡ header.domain_id
  pub governed_here : (l : GovernanceLeaf) → In l governance → GovernanceFits header l
  pub distinct_exports :
      (a b : ExportLeaf) → In a exports → In b exports → a.export_id ≡ b.export_id → a ≡ b
  pub distinct_imports :
      (a b : FinalizedImportLeaf) → In a imports → In b imports → a.export_id ≡ b.export_id → a ≡ b
  pub distinct_governance :
      (a b : GovernanceLeaf) → In a governance → In b governance → leaf_hash a ≡ leaf_hash b → a ≡ b

pub sorted-IsEpochOf :
    (header : EpochSummaryHeader) (exports : List ExportLeaf) (imports : List FinalizedImportLeaf)
    (governance : List GovernanceLeaf)
    → IsEpochOf header exports imports governance
    → IsEpochOf header
        (sort_export_leaves exports)
        (sort_finalized_import_leaves imports)
        (sort_governance_leaves governance)
sorted-IsEpochOf header exports imports governance epoch =
    let e = λ (l : ExportLeaf). In-of_sort_by export_leaf_ordering l exports in
    let i = λ (l : FinalizedImportLeaf). In-of_sort_by finalized_import_leaf_ordering l imports in
    let g = λ (l : GovernanceLeaf). In-of_sort_by governance_leaf_ordering l governance in
    record {
      exported_here = λ l m. epoch.exported_here l (e l m);
      imported_here = λ l m. epoch.imported_here l (i l m);
      governed_here = λ l m. epoch.governed_here l (g l m);
      distinct_exports = λ a b m n. epoch.distinct_exports a b (e a m) (e b n);
      distinct_imports = λ a b m n. epoch.distinct_imports a b (i a m) (i b n);
      distinct_governance = λ a b m n. epoch.distinct_governance a b (g a m) (g b n);
    }

-- The package of a target is a package of proofs that go there.
pub record IsBuilt (codec : PackageCodec) (header : EpochSummaryHeader) (d : DomainId)
    (bundle : SummaryCertificationBundle) (pkg : CertifiedSummaryPackage) : Type 0 where
  pub items : List InclusionProof
  pub built : pkg ≡ package_of codec header bundle items
  pub addressed : All (IsAddressed header d) items
  pub some_item : 0 < length items

module _ ⦃h : Hasher⦄ (codec : PackageCodec) (header : EpochSummaryHeader)
    (exports : List ExportLeaf) (imports : List FinalizedImportLeaf)
    (governance : List GovernanceLeaf) (epoch : IsEpochOf header exports imports governance)
    (d : DomainId) where
  export-IsAddressed :
      (leaf : ExportLeaf) (proof : ExportInclusionProof)
      → leaf.target_domain ≡ d
      → In leaf exports
      → ok_or (build_export_inclusion_proof exports leaf.export_id) missing_export_proof ≡ ok proof
      → IsAddressed header d (export_v1 proof)
  unfolding ok_or
  export-IsAddressed leaf proof to m built =
      let (n, same_id) =
        build_export_inclusion_proof-leaf exports leaf.export_id proof (ground arith) in
      let same = epoch.distinct_exports proof.leaf leaf n m same_id in
      let (source, at_epoch) = epoch.exported_here proof.leaf n in
      (ap (λ l. l.target_domain) same ∙ to, source, at_epoch)

  import-IsAddressed :
      (leaf : FinalizedImportLeaf) (proof : FinalizedImportInclusionProof)
      → leaf.source_domain ≡ d
      → In leaf imports
      → ok_or
          (build_finalized_import_inclusion_proof imports leaf.export_id)
          missing_finalized_import_proof
        ≡ ok proof
      → IsAddressed header d (finalized_import_v1 proof)
  unfolding ok_or
  import-IsAddressed leaf proof to m built =
      let (n, same_id) =
        build_finalized_import_inclusion_proof-leaf imports leaf.export_id proof (ground arith) in
      let same = epoch.distinct_imports proof.leaf leaf n m same_id in
      (ap (λ l. l.source_domain) same ∙ to, epoch.imported_here proof.leaf n)

  leaf-IsAddressedLeaf :
      (leaf : GovernanceLeaf)
      → target_domain leaf ≡ d
      → GovernanceFits header leaf
      → IsAddressedLeaf header d leaf
  leaf-IsAddressedLeaf (proposal_v1 leaf) to fits = (to, fits.0, fits.1)
  leaf-IsAddressedLeaf (ack_v1 leaf) to fits = (to, fits)

  governance-IsAddressed :
      (leaf : GovernanceLeaf) (proof : GovernanceInclusionProof)
      → target_domain leaf ≡ d
      → In leaf governance
      → ok_or
          (build_governance_inclusion_proof governance (leaf_hash leaf))
          missing_governance_proof
        ≡ ok proof
      → IsAddressed header d (governance_v1 proof)
  unfolding ok_or
  governance-IsAddressed leaf proof to m built =
      let (n, same_hash) =
        build_governance_inclusion_proof-leaf governance (leaf_hash leaf) proof (ground arith) in
      let same = epoch.distinct_governance proof.leaf leaf n m same_hash in
      leaf-IsAddressedLeaf proof.leaf (ap target_domain same ∙ to)
        (epoch.governed_here proof.leaf n)

  map_encode :
      (a b c : List InclusionProof)
      → map codec.encode_proof a ++ (map codec.encode_proof b ++ map codec.encode_proof c)
        ≡ map codec.encode_proof (a ++ (b ++ c))
  map_encode a b c = simp map-append

  map-map :
      {A : Type 0} (f : A → InclusionProof) (xs : List A)
      → map (λ x. codec.encode_proof (f x)) xs ≡ map codec.encode_proof (map f xs)
  map-map f [] = refl
  map-map f (x ∷ xs) = ap (λ rest. codec.encode_proof (f x) ∷ rest) (map-map f xs)

  mixed-package_of :
      (bundle : SummaryCertificationBundle) (eps : List ExportInclusionProof)
      (ips : List FinalizedImportInclusionProof) (gps : List GovernanceInclusionProof)
      → from_bundle_with_mixed_proofs codec header bundle eps ips gps
        ≡ package_of codec header bundle
            (map export_v1 eps ++ (map finalized_import_v1 ips ++ map governance_v1 gps))
  mixed-package_of bundle eps ips gps =
      ap
        (λ rest.
          from_fields codec header bundle.certificate
            (codec.encode_proof (summary_header_storage_v1 bundle.summary_header_storage_proof)
              ∷ rest)
            [])
        (rw (map-map export_v1 eps, map-map finalized_import_v1 ips, map-map governance_v1 gps)
          (map_encode (map export_v1 eps) (map finalized_import_v1 ips) (map governance_v1 gps)))

  pub target_package-IsBuilt :
      (bundle : SummaryCertificationBundle) (i : TargetPackageInputs)
      (pkg : CertifiedSummaryPackage)
      → IsFilledFor exports imports governance d i
      → target_package codec header bundle exports imports governance i ≡ ok pkg
      → IsBuilt codec header d bundle pkg
  unfolding target_package
  target_package-IsBuilt bundle i pkg (inputs, some_input) made =
      let (eps, collected_exports, h1) = >>=-ok _ _ _ made in
      let (ips, collected_imports, h2) = >>=-ok _ _ _ h1 in
      let (gps, collected_governance, h3) = >>=-ok _ _ _ h2 in
      let (of_exports, export_count) = collect-ok _ i.export_leaves eps collected_exports in
      let (of_imports, import_count) =
        collect-ok _ i.finalized_import_leaves ips collected_imports in
      let (of_governance, governance_count) =
        collect-ok _ i.governance_leaves gps collected_governance in
      record {
        items = map export_v1 eps ++ (map finalized_import_v1 ips ++ map governance_v1 gps);
        built = sym (ok_injective _ _ h3) ∙ mixed-package_of bundle eps ips gps;
        addressed =
            All-append _ (map export_v1 eps) _
              (All-map export_v1 _ eps (
                All-tabulate _ eps (λ p m.
                  let (leaf, n, at) = All-at _ p eps of_exports m in
                  let (to, here) = All-at _ leaf i.export_leaves inputs.export_leaves n in
                  export-IsAddressed leaf p to here at)))
              (All-append _ (map finalized_import_v1 ips) _
                (All-map finalized_import_v1 _ ips (
                  All-tabulate _ ips (λ p m.
                    let (leaf, n, at) = All-at _ p ips of_imports m in
                    let (to, here) =
                      All-at _ leaf i.finalized_import_leaves inputs.import_leaves n in
                    import-IsAddressed leaf p to here at)))
                (All-map governance_v1 _ gps (
                  All-tabulate _ gps (λ p m.
                    let (leaf, n, at) = All-at _ p gps of_governance m in
                    let (to, here) = All-at _ leaf i.governance_leaves inputs.governance_leaves n in
                    governance-IsAddressed leaf p to here at))));
        some_item = omega (
          arith,
          length-append (map export_v1 eps) (map finalized_import_v1 ips ++ map governance_v1 gps),
          length-append (map finalized_import_v1 ips) (map governance_v1 gps),
          length-map export_v1 eps,
          length-map finalized_import_v1 ips,
          length-map governance_v1 gps,
          export_count,
          import_count,
          governance_count,
        );
      }
