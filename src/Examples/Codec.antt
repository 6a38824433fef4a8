-- ===== src/Examples/Codec.antt =====
-- A codec of packages whose decoding inverts its encoding.
use interplanetary_asynchron.Prelude.{
  ℕ, ◌+◌, ◌*◌, ◌≡◌, refl, ◌⊎◌, inl, inr, List, length, nat_eq, pair_eq,
}
use interplanetary_asynchron.Examples.Formats.{
  Format, number_format, via, pair_format, list_format, either_format, domain_format, encode,
  decode, decode-encode,
}
use interplanetary_asynchron.Merkle.Exports.{ExportInclusionProof}
use interplanetary_asynchron.Merkle.Governance.{GovernanceInclusionProof}
use interplanetary_asynchron.Merkle.Imports.{FinalizedImportInclusionProof}
use interplanetary_asynchron.Packages.{
  Bytes, RelayPackageEnvelope, GrandpaFinalityCertificate, SummaryHeaderStorageProof,
  SummaryCertificate, grandpa_v1, InclusionProof, summary_header_storage_v1, export_v1,
  finalized_import_v1, governance_v1, CertifiedSummaryPackage, PackageCodec, PackageCodecLaws,
}
use interplanetary_asynchron.Types.Export.{ExportLeaf}
use interplanetary_asynchron.Types.Governance.{GovernanceLeaf}
use interplanetary_asynchron.Types.Import.{FinalizedImportLeaf}
use interplanetary_asynchron.Types.Scale.{DomainId, domain_eq, Hash, EpochId}
use interplanetary_asynchron.Types.Summary.{EpochSummaryHeader}
use interplanetary_asynchron.Examples.LeafFormats.{
  header_format, export_leaf_format, import_leaf_format, governance_leaf_format,
}

instance abbrev pub export_proof_format : Format ExportInclusionProof
export_proof_format =
    via {A = ℕ × (ExportLeaf × (ℕ × (ℕ × (List Hash))))}
      (λ v. (v.version, (v.leaf, (v.leaf_index, (v.leaf_count, v.siblings)))))
      (λ t. record {
        version = t.0;
        leaf = t.1.0;
        leaf_index = t.1.1.0;
        leaf_count = t.1.1.1.0;
        siblings = t.1.1.1.1;
      })
      (λ v. refl)

instance abbrev pub import_proof_format : Format FinalizedImportInclusionProof
import_proof_format =
    via {A = ℕ × (FinalizedImportLeaf × (ℕ × (ℕ × (List Hash))))}
      (λ v. (v.version, (v.leaf, (v.leaf_index, (v.leaf_count, v.siblings)))))
      (λ t. record {
        version = t.0;
        leaf = t.1.0;
        leaf_index = t.1.1.0;
        leaf_count = t.1.1.1.0;
        siblings = t.1.1.1.1;
      })
      (λ v. refl)

instance abbrev pub governance_proof_format : Format GovernanceInclusionProof
governance_proof_format =
    via {A = ℕ × (GovernanceLeaf × (ℕ × (ℕ × (List Hash))))}
      (λ v. (v.version, (v.leaf, (v.leaf_index, (v.leaf_count, v.siblings)))))
      (λ t. record {
        version = t.0;
        leaf = t.1.0;
        leaf_index = t.1.1.0;
        leaf_count = t.1.1.1.0;
        siblings = t.1.1.1.1;
      })
      (λ v. refl)

instance abbrev pub storage_proof_format : Format SummaryHeaderStorageProof
storage_proof_format =
    via {A = ℕ × (ℕ × (Hash × (Bytes × (Bytes × (List Bytes)))))}
      (λ v. (
        v.version,
        (
          v.proof_block_number,
          (v.proof_block_hash, (v.proof_block_header, (v.storage_key, v.trie_nodes))),
        ),
      ))
      (λ t. record {
        version = t.0;
        proof_block_number = t.1.0;
        proof_block_hash = t.1.1.0;
        proof_block_header = t.1.1.1.0;
        storage_key = t.1.1.1.1.0;
        trie_nodes = t.1.1.1.1.1;
      })
      (λ v. refl)

instance abbrev pub finality_format : Format GrandpaFinalityCertificate
finality_format =
    via {A = ℕ × (ℕ × (ℕ × (Hash × (ℕ × (Hash × (Bytes × (List Bytes)))))))}
      (λ v. (
        v.version,
        (
          v.grandpa_set_id,
          (
            v.target_block_number,
            (
              v.target_block_hash,
              (v.proof_block_number, (v.proof_block_hash, (v.justification, v.ancestry_headers))),
            ),
          ),
        ),
      ))
      (λ t. record {
        version = t.0;
        grandpa_set_id = t.1.0;
        target_block_number = t.1.1.0;
        target_block_hash = t.1.1.1.0;
        proof_block_number = t.1.1.1.1.0;
        proof_block_hash = t.1.1.1.1.1.0;
        justification = t.1.1.1.1.1.1.0;
        ancestry_headers = t.1.1.1.1.1.1.1;
      })
      (λ v. refl)

abbrev Proofs : Type 0
Proofs =
    SummaryHeaderStorageProof
    ⊎ (ExportInclusionProof ⊎ (FinalizedImportInclusionProof ⊎ GovernanceInclusionProof))

abbrev split_proof : InclusionProof → Proofs
split_proof (summary_header_storage_v1 p) = inl p
split_proof (export_v1 p) = inr (inl p)
split_proof (finalized_import_v1 p) = inr (inr (inl p))
split_proof (governance_v1 p) = inr (inr (inr p))

abbrev join_proof : Proofs → InclusionProof
join_proof (inl p) = summary_header_storage_v1 p
join_proof (inr (inl p)) = export_v1 p
join_proof (inr (inr (inl p))) = finalized_import_v1 p
join_proof (inr (inr (inr p))) = governance_v1 p

pub join_proof-split_proof : (p : InclusionProof) → join_proof (split_proof p) ≡ p
join_proof-split_proof (summary_header_storage_v1 p) = refl
join_proof-split_proof (export_v1 p) = refl
join_proof-split_proof (finalized_import_v1 p) = refl
join_proof-split_proof (governance_v1 p) = refl

instance abbrev pub inclusion_proof_format : Format InclusionProof
inclusion_proof_format = via split_proof join_proof join_proof-split_proof

abbrev grandpa : SummaryCertificate → GrandpaFinalityCertificate
grandpa (grandpa_v1 certificate) = certificate

pub grandpa_back : (c : SummaryCertificate) → grandpa_v1 (grandpa c) ≡ c
grandpa_back (grandpa_v1 certificate) = refl

instance abbrev pub certificate_format : Format SummaryCertificate
certificate_format = via grandpa grandpa_v1 grandpa_back

instance abbrev pub package_format : Format CertifiedSummaryPackage
package_format =
    via {A = ℕ × (Hash × (EpochSummaryHeader × (SummaryCertificate × (List Bytes × (List Bytes)))))}
      (λ v. (
        v.version,
        (v.package_hash, (v.header, (v.certificate, (v.inclusion_proofs, v.artifacts)))),
      ))
      (λ t. record {
        version = t.0;
        package_hash = t.1.0;
        header = t.1.1.0;
        certificate = t.1.1.1.0;
        inclusion_proofs = t.1.1.1.1.0;
        artifacts = t.1.1.1.1.1;
      })
      (λ v. refl)

instance abbrev pub envelope_format : Format RelayPackageEnvelope
envelope_format =
    via {A = ℕ × (DomainId × (DomainId × (EpochId × (Hash × (Hash × (Bytes × (ℕ × (ℕ))))))))}
      (λ v. (
        v.version,
        (
          v.source_domain,
          (
            v.target_domain,
            (
              v.epoch_id,
              (
                v.summary_hash,
                (v.package_hash, (v.package_bytes, (v.export_count, v.relay_submitted_at_unix_ms))),
              ),
            ),
          ),
        ),
      ))
      (λ t. record {
        version = t.0;
        source_domain = t.1.0;
        target_domain = t.1.1.0;
        epoch_id = t.1.1.1.0;
        summary_hash = t.1.1.1.1.0;
        package_hash = t.1.1.1.1.1.0;
        package_bytes = t.1.1.1.1.1.1.0;
        export_count = t.1.1.1.1.1.1.1.0;
        relay_submitted_at_unix_ms = t.1.1.1.1.1.1.1.1;
      })
      (λ v. refl)

-- The package hash is a sum of three fields of the header, far from a hash.
abbrev pub codec : PackageCodec
codec = record {
  encode_proof = encode;
  decode_proof = decode;
  encode_package = encode;
  decode_package = decode;
  encode_envelope = encode;
  decode_envelope = decode;
  hash_of_input =
      λ input. input.version + input.header.summary_hash * 2 + length input.inclusion_proofs;
}

pub codec_laws : PackageCodecLaws codec
codec_laws = record {
  decode-encode_proof = decode-encode;
  decode-encode_package = decode-encode;
  decode-encode_envelope = decode-encode;
}
