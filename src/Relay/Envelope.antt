-- ===== src/Relay/Envelope.antt =====
-- services/relay/src/lib.rs: `decode_and_validate_envelope` and `derive_target_domain`, which decide
-- whether a submitted envelope is taken.
pub mod Accepted
pub mod RoundTrip
use interplanetary_asynchron.Prelude.{
  ℕ, ◌+◌, min, Bool, true, false, not, ◌&&◌, Option, none, some, List, [], ◌∷◌, length, ltb,
  nat_beq, ◌==◌, nat_eq, pair_eq,
}
use interplanetary_asynchron.Packages.{
  Bytes, RelayPackageEnvelope, InclusionProof, summary_header_storage_v1, export_v1,
  finalized_import_v1, governance_v1, CertifiedSummaryPackage, PackageCodec, compute_package_hash,
}
use interplanetary_asynchron.Prelude.Outcome.{Outcome, ok, err, ◌>>=◌, ◌>>◌, ensure, ok_or}
use interplanetary_asynchron.Relay.Blackout.{
  RelayError, undecodable_envelope, undecodable_package, package_hash_mismatch,
  envelope_hash_mismatch, source_domain_mismatch, epoch_mismatch, summary_hash_mismatch,
  target_domain_mismatch, export_count_mismatch, too_few_proofs, undecodable_proof, misplaced_proof,
  mixed_targets, foreign_proof, foreign_epoch,
}
use interplanetary_asynchron.Types.Governance.{GovernanceLeaf, proposal_v1, ack_v1, target_domain}
use interplanetary_asynchron.Types.Scale.{DomainId, domain_eq, u32_max}
use interplanetary_asynchron.Types.Summary.{EpochSummaryHeader}

-- A governance leaf against the header of its package.
abbrev governance_leaf_fits : EpochSummaryHeader → GovernanceLeaf → Outcome RelayError (Unit {0})
governance_leaf_fits header (proposal_v1 leaf) =
    ensure (leaf.source_domain == header.domain_id && nat_beq leaf.approval_epoch header.epoch_id)
      foreign_proof
governance_leaf_fits header (ack_v1 leaf) =
    ensure (nat_beq leaf.acknowledged_epoch header.epoch_id) foreign_epoch

-- The domain that a proof goes to, and whether it belongs to the package of the header. A storage
-- proof may stand first only.
abbrev pub destination : InclusionProof → Option DomainId
destination (summary_header_storage_v1 proof) = none
destination (export_v1 proof) = some proof.leaf.target_domain
destination (finalized_import_v1 proof) = some proof.leaf.source_domain
destination (governance_v1 proof) = some (target_domain proof.leaf)

unfoldable pub proof_fits : EpochSummaryHeader → InclusionProof → Outcome RelayError (Unit {0})
proof_fits header (summary_header_storage_v1 proof) = err misplaced_proof
proof_fits header (export_v1 proof) =
    ensure
      (proof.leaf.source_domain == header.domain_id
        && nat_beq proof.leaf.source_epoch_id header.epoch_id)
      foreign_proof
proof_fits header (finalized_import_v1 proof) =
    ensure (proof.leaf.target_domain == header.domain_id) foreign_proof
proof_fits header (governance_v1 proof) = governance_leaf_fits header proof.leaf

-- The `match` on the target domain so far.
abbrev agrees : Option DomainId → DomainId → Bool
agrees none d = true
agrees (some existing) d = existing == d

-- One proof after the first: the target domain and the count so far, and after it.
unfoldable pub note_proof :
    EpochSummaryHeader
    → InclusionProof
    → Option DomainId × ℕ
    → Outcome RelayError (Option DomainId × ℕ)
note_proof header proof (target, count) = do
  d ← ok_or (destination proof) misplaced_proof
  ensure (agrees target d) mixed_targets
  proof_fits header proof
  ok (some d, min (count + 1) u32_max)

module _ (codec : PackageCodec) where
  unfoldable pub note_proofs :
      EpochSummaryHeader
      → List Bytes
      → Option DomainId × ℕ
      → Outcome RelayError (Option DomainId × ℕ)
  note_proofs header [] seen = ok seen
  note_proofs header (encoded ∷ rest) seen = do
    proof ← ok_or (codec.decode_proof encoded) undecodable_proof
    next ← note_proof header proof seen
    note_proofs header rest next

  abbrev is_storage_proof : InclusionProof → Bool
  is_storage_proof (summary_header_storage_v1 proof) = true
  is_storage_proof (export_v1 proof) = false
  is_storage_proof (finalized_import_v1 proof) = false
  is_storage_proof (governance_v1 proof) = false

  -- The loop over all proofs. Index 0 holds the storage proof, and nothing else does.
  unfoldable pub scan_proofs :
      EpochSummaryHeader → List Bytes → Outcome RelayError (Option DomainId × ℕ)
  scan_proofs header [] = ok (none, 0)
  scan_proofs header (encoded ∷ rest) = do
    proof ← ok_or (codec.decode_proof encoded) undecodable_proof
    ensure (is_storage_proof proof) misplaced_proof
    note_proofs header rest (none, 0)

  unfoldable pub derive_target_domain : CertifiedSummaryPackage → Outcome RelayError (DomainId × ℕ)
  derive_target_domain pkg = do
    ensure (not (ltb (length pkg.inclusion_proofs) 2)) too_few_proofs
    seen ← scan_proofs pkg.header pkg.inclusion_proofs
    target ← ok_or seen.0 too_few_proofs
    ok (target, seen.1)

  unfoldable pub decode_and_validate_envelope :
      Bytes → Outcome RelayError (RelayPackageEnvelope × CertifiedSummaryPackage)
  decode_and_validate_envelope body = do
    envelope ← ok_or (codec.decode_envelope body) undecodable_envelope
    pkg ← ok_or (codec.decode_package envelope.package_bytes) undecodable_package
    ensure (nat_beq (compute_package_hash codec pkg) pkg.package_hash) package_hash_mismatch
    ensure (nat_beq pkg.package_hash envelope.package_hash) envelope_hash_mismatch
    ensure (pkg.header.domain_id == envelope.source_domain) source_domain_mismatch
    ensure (nat_beq pkg.header.epoch_id envelope.epoch_id) epoch_mismatch
    ensure (nat_beq pkg.header.summary_hash envelope.summary_hash) summary_hash_mismatch
    derived ← derive_target_domain pkg
    ensure (derived.0 == envelope.target_domain) target_domain_mismatch
    ensure (nat_beq derived.1 envelope.export_count) export_count_mismatch
    ok (envelope, pkg)
