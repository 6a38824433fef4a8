-- ===== src/Packages.antt =====
-- crates/common-types/src/lib.rs: what the services send each other. A package is the header of an
-- epoch with its certificate and inclusion proofs, an envelope is a package on its way to one
-- domain. Byte strings are lists of numbers. The SCALE codec and the hash of its bytes are outside
-- the repository: a `PackageCodec`.
use interplanetary_asynchron.Prelude.{
  ℕ, String, ◌≡◌, Bool, true, false, Option, some, List, [], ◌∷◌, ◌++◌, map, nat_eq, pair_eq,
}
use interplanetary_asynchron.Merkle.Exports.{ExportInclusionProof}
use interplanetary_asynchron.Merkle.Governance.{GovernanceInclusionProof}
use interplanetary_asynchron.Merkle.Imports.{FinalizedImportInclusionProof}
use interplanetary_asynchron.Types.Scale.{DomainId, domain_eq, Hash, EpochId, empty_hash}
use interplanetary_asynchron.Types.Summary.{summary_hash, EpochSummaryHeader}

abbrev pub Bytes : Type 0
Bytes = List ℕ

abbrev certified_summary_package_version : ℕ
certified_summary_package_version = 1

abbrev relay_package_envelope_version : ℕ
relay_package_envelope_version = 1

pub record RelayPackageEnvelope : Type 0 where
  pub version : ℕ
  pub source_domain : DomainId
  pub target_domain : DomainId
  pub epoch_id : EpochId
  pub summary_hash : Hash
  pub package_hash : Hash
  pub package_bytes : Bytes
  pub export_count : ℕ
  pub relay_submitted_at_unix_ms : ℕ

-- `RelayPackageEnvelopeV1::new`.
abbrev pub new_envelope :
    DomainId → DomainId → EpochId → Hash → Hash → Bytes → ℕ → ℕ → RelayPackageEnvelope
new_envelope source target epoch_id summary_hash package_hash package_bytes count submitted_at =
    record {
      version = relay_package_envelope_version;
      source_domain = source;
      target_domain = target;
      epoch_id = epoch_id;
      summary_hash = summary_hash;
      package_hash = package_hash;
      package_bytes = package_bytes;
      export_count = count;
      relay_submitted_at_unix_ms = submitted_at;
    }

pub data ImporterPackageState : Type 0 where
  received verifying submission_retrying : ImporterPackageState
  acked_verified acked_duplicate_local acked_duplicate_remote acked_invalid : ImporterPackageState

abbrev pub is_terminal : ImporterPackageState → Bool
is_terminal acked_verified = true
is_terminal acked_duplicate_local = true
is_terminal acked_duplicate_remote = true
is_terminal acked_invalid = true
is_terminal received = false
is_terminal verifying = false
is_terminal submission_retrying = false

pub record ImporterPackageStatusView : Type 0 where
  pub source_domain : DomainId
  pub target_domain : DomainId
  pub epoch_id : EpochId
  pub package_hash : Hash
  pub summary_hash : Hash
  pub state : ImporterPackageState
  pub terminal : Bool
  pub reason : Option String
  pub export_count : ℕ
  pub tx_hashes : List String

pub record GrandpaFinalityCertificate : Type 0 where
  pub version : ℕ
  pub grandpa_set_id : ℕ
  pub target_block_number : ℕ
  pub target_block_hash : Hash
  pub proof_block_number : ℕ
  pub proof_block_hash : Hash
  pub justification : Bytes
  pub ancestry_headers : List Bytes

pub record SummaryHeaderStorageProof : Type 0 where
  pub version : ℕ
  pub proof_block_number : ℕ
  pub proof_block_hash : Hash
  pub proof_block_header : Bytes
  pub storage_key : Bytes
  pub trie_nodes : List Bytes

pub data SummaryCertificate : Type 0 where
  grandpa_v1 : GrandpaFinalityCertificate → SummaryCertificate

pub record SummaryCertificationBundle : Type 0 where
  pub certificate : SummaryCertificate
  pub summary_header_storage_proof : SummaryHeaderStorageProof

pub data InclusionProof : Type 0 where
  summary_header_storage_v1 : SummaryHeaderStorageProof → InclusionProof
  export_v1 : ExportInclusionProof → InclusionProof
  finalized_import_v1 : FinalizedImportInclusionProof → InclusionProof
  governance_v1 : GovernanceInclusionProof → InclusionProof

pub record CertifiedSummaryPackageHashInput : Type 0 where
  pub version : ℕ
  pub header : EpochSummaryHeader
  pub certificate : SummaryCertificate
  pub inclusion_proofs : List Bytes
  pub artifacts : List Bytes

pub record CertifiedSummaryPackage : Type 0 where
  pub version : ℕ
  pub package_hash : Hash
  pub header : EpochSummaryHeader
  pub certificate : SummaryCertificate
  pub inclusion_proofs : List Bytes
  pub artifacts : List Bytes

-- `Encode` and `Decode` of the types that travel, and `blake2_256` of the encoded hash input.
pub record PackageCodec : Type 0 where
  pub encode_proof : InclusionProof → Bytes
  pub decode_proof : Bytes → Option InclusionProof
  pub encode_package : CertifiedSummaryPackage → Bytes
  pub decode_package : Bytes → Option CertifiedSummaryPackage
  pub encode_envelope : RelayPackageEnvelope → Bytes
  pub decode_envelope : Bytes → Option RelayPackageEnvelope
  pub hash_of_input : CertifiedSummaryPackageHashInput → Hash

-- Decoding inverts encoding, and an encoding determines its value.
pub record PackageCodecLaws (codec : PackageCodec) : Type 0 where
  pub decode-encode_proof :
      (p : InclusionProof) → codec.decode_proof (codec.encode_proof p) ≡ some p
  pub decode-encode_package :
      (p : CertifiedSummaryPackage) → codec.decode_package (codec.encode_package p) ≡ some p
  pub decode-encode_envelope :
      (e : RelayPackageEnvelope) → codec.decode_envelope (codec.encode_envelope e) ≡ some e

abbrev pub package_hash_input : CertifiedSummaryPackage → CertifiedSummaryPackageHashInput
package_hash_input pkg = record {
  version = pkg.version;
  header = pkg.header;
  certificate = pkg.certificate;
  inclusion_proofs = pkg.inclusion_proofs;
  artifacts = pkg.artifacts;
}

module _ (codec : PackageCodec) where
  abbrev pub compute_package_hash : CertifiedSummaryPackage → Hash
  compute_package_hash pkg = codec.hash_of_input (package_hash_input pkg)

  abbrev pub from_fields :
      EpochSummaryHeader → SummaryCertificate → List Bytes → List Bytes → CertifiedSummaryPackage
  from_fields header certificate inclusion_proofs artifacts =
      let pkg : CertifiedSummaryPackage = record {
        version = certified_summary_package_version;
        package_hash = empty_hash;
        header = header;
        certificate = certificate;
        inclusion_proofs = inclusion_proofs;
        artifacts = artifacts;
      } in
      record pkg { package_hash = compute_package_hash pkg }

  abbrev pub from_bundle_with_mixed_proofs :
      EpochSummaryHeader
      → SummaryCertificationBundle
      → List ExportInclusionProof
      → List FinalizedImportInclusionProof
      → List GovernanceInclusionProof
      → CertifiedSummaryPackage
  from_bundle_with_mixed_proofs header bundle export_proofs finalized_import_proofs
        governance_proofs =
      from_fields header bundle.certificate
        (codec.encode_proof (summary_header_storage_v1 bundle.summary_header_storage_proof)
          ∷ (map (λ p. codec.encode_proof (export_v1 p)) export_proofs
              ++ (map (λ p. codec.encode_proof (finalized_import_v1 p)) finalized_import_proofs
                  ++ map (λ p. codec.encode_proof (governance_v1 p)) governance_proofs)))
        []

  abbrev pub from_bundle_with_export_proofs :
      EpochSummaryHeader
      → SummaryCertificationBundle
      → List ExportInclusionProof
      → CertifiedSummaryPackage
  from_bundle_with_export_proofs header bundle export_proofs =
      from_bundle_with_mixed_proofs header bundle export_proofs [] []

  abbrev pub from_bundle_with_finalized_import_proofs :
      EpochSummaryHeader
      → SummaryCertificationBundle
      → List FinalizedImportInclusionProof
      → CertifiedSummaryPackage
  from_bundle_with_finalized_import_proofs header bundle finalized_import_proofs =
      from_bundle_with_mixed_proofs header bundle [] finalized_import_proofs []

  abbrev pub from_bundle_with_governance_proofs :
      EpochSummaryHeader
      → SummaryCertificationBundle
      → List GovernanceInclusionProof
      → CertifiedSummaryPackage
  from_bundle_with_governance_proofs header bundle governance_proofs =
      from_bundle_with_mixed_proofs header bundle [] [] governance_proofs
