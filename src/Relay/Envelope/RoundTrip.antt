-- ===== src/Relay/Envelope/RoundTrip.antt =====
-- The relay takes what the exporter builds.
use interplanetary_asynchron.Prelude.{
  ℕ, ◌+◌, ◌≤◌, ◌<◌, min, ◌≡◌, refl, ap, ◌⊎◌, inl, inr, Option, none, some, List, [], ◌∷◌, map,
  arith, length, All, length-map, nat_eq, pair_eq,
}
use interplanetary_asynchron.Packages.{
  RelayPackageEnvelope, new_envelope, SummaryCertificationBundle, InclusionProof,
  summary_header_storage_v1, export_v1, finalized_import_v1, governance_v1, CertifiedSummaryPackage,
  PackageCodec, PackageCodecLaws, from_fields,
}
use interplanetary_asynchron.Prelude.Outcome.{ok, ◌>>=◌, ◌>>◌, ensure, ok_or}
use interplanetary_asynchron.Relay.Envelope.{
  destination, proof_fits, note_proof, note_proofs, scan_proofs, derive_target_domain,
  decode_and_validate_envelope, governance_leaf_fits,
}
use interplanetary_asynchron.Relay.Envelope.Accepted.{IsAddressedLeaf, IsAddressed}
use interplanetary_asynchron.Types.Governance.{GovernanceLeaf, proposal_v1, ack_v1}
use interplanetary_asynchron.Types.Scale.{DomainId, domain_beq_iff, domain_eq, u32_max}
use interplanetary_asynchron.Types.Summary.{EpochSummaryHeader}

addressed-fits :
    (header : EpochSummaryHeader) (proof : InclusionProof) (d : DomainId)
    → IsAddressed header d proof
    → (destination proof ≡ some d) × (proof_fits header proof ≡ ok tt)
unfolding proof_fits ensure
addressed-fits header (summary_header_storage_v1 proof) d h = absurd h
addressed-fits header (export_v1 proof) d h =
    ground (arith, domain_beq_iff proof.leaf.source_domain header.domain_id)
addressed-fits header (finalized_import_v1 proof) d h =
    ground (arith, domain_beq_iff proof.leaf.target_domain header.domain_id)
addressed-fits header (governance_v1 proof) d h = leaf_fits proof.leaf h
  where
    leaf_fits :
        (leaf : GovernanceLeaf)
        → IsAddressedLeaf header d leaf
        → (destination (governance_v1 (record proof { leaf = leaf })) ≡ some d)
          × (governance_leaf_fits header leaf ≡ ok tt)
    leaf_fits (proposal_v1 leaf) h =
        ground (arith, domain_beq_iff leaf.source_domain header.domain_id)
    leaf_fits (ack_v1 leaf) h = ground arith

module _ (codec : PackageCodec) where
  -- The converse of a proof's reading.
  Carries-note :
      (header : EpochSummaryHeader) (t : DomainId) (proof : InclusionProof)
      (before : Option DomainId) (count : ℕ)
      → IsAddressed header t proof
      → (before ≡ none) ⊎ (before ≡ some t)
      → note_proof header proof (before, count) ≡ ok (some t, min (count + 1) u32_max)
  unfolding note_proof ok_or ensure ◌>>=◌ ◌>>◌
  Carries-note header t proof before count addressed old =
      let (to, fits) = addressed-fits header proof t addressed in
      ground (arith, to, fits, old, domain_beq_iff t t)

  note_proofs-map :
      (laws : PackageCodecLaws codec) (header : EpochSummaryHeader) (t : DomainId)
      (proofs : List InclusionProof) (before : Option DomainId) (count : ℕ)
      → All (IsAddressed header t) proofs
      → (before ≡ none) ⊎ (before ≡ some t)
      → count + length proofs ≤ u32_max
      → 0 < count + length proofs
      → (0 < count → before ≡ some t)
      → note_proofs codec header (map codec.encode_proof proofs) (before, count)
        ≡ ok (some t, count + length proofs)
  unfolding note_proofs ok_or ◌>>=◌
  note_proofs-map laws header t [] before count addressed old fits some_item begun =
      ground (arith, begun (omega arith))
  note_proofs-map laws header t (proof ∷ rest) before count addressed old fits some_item begun =
      let step = Carries-note header t proof before count addressed.0 old in
      let next =
        note_proofs-map laws header t rest (some t) (count + 1) addressed.1 (inr refl) (omega arith)
          (omega arith) (λ _. refl) in
      let small : min (count + 1) u32_max ≡ count + 1 = omega arith in
      rw (laws.decode-encode_proof proof, step, small, next)
        (ap (λ n. ok (some t, n)) (omega arith))

  -- The package of a header, its certification and further proofs.
  abbrev pub package_of :
      EpochSummaryHeader
      → SummaryCertificationBundle
      → List InclusionProof
      → CertifiedSummaryPackage
  package_of header bundle items =
      from_fields codec header bundle.certificate
        (codec.encode_proof (summary_header_storage_v1 bundle.summary_header_storage_proof)
          ∷ map codec.encode_proof items)
        []

  abbrev pub envelope_of : CertifiedSummaryPackage → DomainId → ℕ → ℕ → RelayPackageEnvelope
  envelope_of pkg target count now =
      new_envelope pkg.header.domain_id target pkg.header.epoch_id pkg.header.summary_hash
        pkg.package_hash (codec.encode_package pkg) count now

  module _ (laws : PackageCodecLaws codec) (header : EpochSummaryHeader)
      (bundle : SummaryCertificationBundle) (target : DomainId) (items : List InclusionProof)
      (addressed : All (IsAddressed header target) items) (some_item : 0 < length items)
      (fits : length items ≤ u32_max) where
    derive-built :
        derive_target_domain codec (package_of header bundle items) ≡ ok (target, length items)
    unfolding derive_target_domain scan_proofs ok_or ensure ◌>>=◌ ◌>>◌
    derive-built =
        let storage = summary_header_storage_v1 bundle.summary_header_storage_proof in
        ground (
          arith,
          laws.decode-encode_proof storage,
          length-map codec.encode_proof items,
          note_proofs-map laws header target items none 0 addressed (inl refl) (omega arith)
              (omega arith) (λ begun. absurd (omega (arith, begun))),
        )

    -- The relay takes the envelope of a package that is built from a header, its certification and
    -- inclusion proofs of things that the header's domain sends to the envelope's target, of which
    -- there is at least one and fewer than 2 ^ 32.
    pub built-accepted :
        (now : ℕ)
        → decode_and_validate_envelope codec (
            codec.encode_envelope
              (envelope_of (package_of header bundle items) target (length items) now))
          ≡ ok (
            envelope_of (package_of header bundle items) target (length items) now,
            package_of header bundle items,
          )
    unfolding decode_and_validate_envelope ok_or ensure ◌>>=◌ ◌>>◌
    built-accepted now =
        let pkg = package_of header bundle items in
        let envelope = envelope_of pkg target (length items) now in
        ground (
          arith,
          laws.decode-encode_envelope envelope,
          laws.decode-encode_package pkg,
          derive-built,
          domain_beq_iff header.domain_id header.domain_id,
          domain_beq_iff target target,
        )
