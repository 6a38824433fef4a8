-- ===== src/Examples/Packages.antt =====
-- An epoch with one export, its package, and what the exporter and the relay make of it.
use interplanetary_asynchron.Examples.Codec.{codec, codec_laws}
use interplanetary_asynchron.Examples.Leaves.{leaf_at}
use interplanetary_asynchron.Examples.World.{hasher}
use interplanetary_asynchron.Exporter.{
  combine_target_inputs, group_exports_by_target, group_finalized_imports_by_source,
  group_governance_by_target,
}
use interplanetary_asynchron.Exporter.Grouping.{IsFilledFor, combine_target_inputs-IsFilledFor}
use interplanetary_asynchron.Merkle.Exports.{ExportInclusionProof, export_merkle_root}
use interplanetary_asynchron.Merkle.Imports.{import_merkle_root}
use interplanetary_asynchron.Merkle.Governance.{governance_merkle_root}
use interplanetary_asynchron.Packages.{
  Bytes, RelayPackageEnvelope, SummaryCertificationBundle, grandpa_v1, CertifiedSummaryPackage,
  export_v1, from_bundle_with_mixed_proofs,
}
use interplanetary_asynchron.Prelude.{◌≡◌, refl, List, [], ◌∷◌, arith, nat_eq, pair_eq}
use interplanetary_asynchron.Prelude.Map.{Entries}
use interplanetary_asynchron.Prelude.Outcome.{ok}
use interplanetary_asynchron.Relay.Envelope.{decode_and_validate_envelope}
use interplanetary_asynchron.Relay.Envelope.RoundTrip.{envelope_of, built-accepted}
use interplanetary_asynchron.Types.Export.{ExportLeaf}
use interplanetary_asynchron.Types.Scale.{earth, mars, domain_eq}
use interplanetary_asynchron.Types.Summary.{EpochSummaryHeader}

abbrev exported : List ExportLeaf
exported = leaf_at 1 ∷ []

abbrev pub header : EpochSummaryHeader
header = record {
  version = 1;
  domain_id = earth;
  epoch_id = 0;
  prev_summary_hash = 0;
  start_block_height = 1;
  end_block_height = 3;
  state_root = 0;
  block_root = 0;
  tx_root = 0;
  event_root = 0;
  export_root = export_merkle_root earth 0 1 3 exported;
  import_root = import_merkle_root earth 0 1 3 [];
  governance_root = governance_merkle_root earth 0 1 3 [];
  validator_set_hash = 5;
  summary_hash = 11;
}

abbrev pub bundle : SummaryCertificationBundle
bundle = record {
  certificate = grandpa_v1 (record {
    version = 1;
    grandpa_set_id = 0;
    target_block_number = 4;
    target_block_hash = 44;
    proof_block_number = 4;
    proof_block_hash = 44;
    justification = 1 ∷ 2 ∷ [];
    ancestry_headers = [];
  });
  summary_header_storage_proof = record {
    version = 1;
    proof_block_number = 4;
    proof_block_hash = 44;
    proof_block_header = 3 ∷ [];
    storage_key = 4 ∷ [];
    trie_nodes = (5 ∷ []) ∷ [];
  };
}

abbrev proof : ExportInclusionProof
proof = record { version = 1; leaf = leaf_at 1; leaf_index = 0; leaf_count = 1; siblings = [] }

abbrev pub pkg : CertifiedSummaryPackage
pkg = from_bundle_with_mixed_proofs codec header bundle (proof ∷ []) [] []

abbrev pub envelope : RelayPackageEnvelope
envelope = envelope_of codec pkg mars 1 700

abbrev pub body : Bytes
body = codec.encode_envelope envelope

combine_target_inputs-IsFilledFor_example : Entries (IsFilledFor exported [] []) (
    combine_target_inputs
      (group_exports_by_target exported)
      (group_finalized_imports_by_source [])
      (group_governance_by_target []))
combine_target_inputs-IsFilledFor_example = combine_target_inputs-IsFilledFor exported [] []

pub body_valid : decode_and_validate_envelope codec body ≡ ok (envelope, pkg)
body_valid =
    built-accepted codec codec_laws header bundle mars (export_v1 proof ∷ [])
      ((refl, refl, refl), tt) (omega arith) (omega arith) 700
