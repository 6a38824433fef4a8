-- ===== src/Relay/Envelope/Accepted.antt =====
-- What an accepted envelope carries.
use mathlib.Core.Path.{subst₂}
use interplanetary_asynchron.Prelude.{
  ℕ, ◌+◌, ◌≤◌, ◌<◌, min, ◌≡◌, refl, ap, subst, ◌∙◌, true, Option, none, some, List, [], ◌∷◌, arith,
  length, All, nat_eq, pair_eq,
}
use interplanetary_asynchron.Packages.{
  Bytes, RelayPackageEnvelope, SummaryHeaderStorageProof, InclusionProof, summary_header_storage_v1,
  export_v1, finalized_import_v1, governance_v1, CertifiedSummaryPackage, PackageCodec,
  compute_package_hash,
}
use interplanetary_asynchron.Prelude.Outcome.{ok, ensure, after, >>=-ok, >>-ok, ensure-ok, ok_or-ok}
use interplanetary_asynchron.Relay.Envelope.{
  destination, proof_fits, note_proof, note_proofs, scan_proofs, derive_target_domain,
  decode_and_validate_envelope, governance_leaf_fits, is_storage_proof,
}
use interplanetary_asynchron.Types.Governance.{GovernanceLeaf, proposal_v1, ack_v1}
use interplanetary_asynchron.Types.Scale.{DomainId, domain_beq_iff, domain_eq, u32_max}
use interplanetary_asynchron.Types.Summary.{EpochSummaryHeader}

-- The proof is of something that the header's domain sends to the target in the header's epoch. The
-- relay leaves the epoch of a finalized import and the domain of an acknowledgement to the importer.
abbrev pub IsAddressedLeaf : EpochSummaryHeader → DomainId → GovernanceLeaf → Type 0
IsAddressedLeaf header target (proposal_v1 leaf) =
    (leaf.target_domain ≡ target)
    × (leaf.source_domain ≡ header.domain_id)
    × (leaf.approval_epoch ≡ header.epoch_id)
IsAddressedLeaf header target (ack_v1 leaf) =
    (leaf.target_domain ≡ target) × (leaf.acknowledged_epoch ≡ header.epoch_id)

abbrev pub IsAddressed : EpochSummaryHeader → DomainId → InclusionProof → Type 0
IsAddressed header target (summary_header_storage_v1 proof) = ⊥
IsAddressed header target (export_v1 proof) =
    (proof.leaf.target_domain ≡ target)
    × (proof.leaf.source_domain ≡ header.domain_id)
    × (proof.leaf.source_epoch_id ≡ header.epoch_id)
IsAddressed header target (finalized_import_v1 proof) =
    (proof.leaf.source_domain ≡ target) × (proof.leaf.target_domain ≡ header.domain_id)
IsAddressed header target (governance_v1 proof) = IsAddressedLeaf header target proof.leaf

-- `proof_fits` and `destination` together decide it.
fits-IsAddressed :
    (header : EpochSummaryHeader) (proof : InclusionProof) (d : DomainId)
    → destination proof ≡ some d
    → proof_fits header proof ≡ ok tt
    → IsAddressed header d proof
unfolding proof_fits ensure
fits-IsAddressed header (summary_header_storage_v1 proof) d to fits = absurd (ground arith)
fits-IsAddressed header (export_v1 proof) d to fits =
    ground (arith, domain_beq_iff proof.leaf.source_domain header.domain_id)
fits-IsAddressed header (finalized_import_v1 proof) d to fits =
    ground (arith, domain_beq_iff proof.leaf.target_domain header.domain_id)
fits-IsAddressed header (governance_v1 proof) d to fits = leaf_fits proof.leaf to fits
  where
    leaf_fits :
        (leaf : GovernanceLeaf)
        → destination (governance_v1 (record proof { leaf = leaf })) ≡ some d
        → governance_leaf_fits header leaf ≡ ok tt
        → IsAddressedLeaf header d leaf
    leaf_fits (proposal_v1 leaf) to fits =
        ground (arith, domain_beq_iff leaf.source_domain header.domain_id)
    leaf_fits (ack_v1 leaf) to fits = ground arith

module _ (codec : PackageCodec) where
  pub record Carries (header : EpochSummaryHeader) (target : DomainId) (encoded : Bytes)
      : Type 0 where
    pub proof : InclusionProof
    pub decoded : codec.decode_proof encoded ≡ some proof
    pub addressed : IsAddressed header target proof

  note_proof-IsAddressed :
      (header : EpochSummaryHeader) (proof : InclusionProof) (before : Option DomainId) (count : ℕ)
      (after : Option DomainId × ℕ)
      → note_proof header proof (before, count) ≡ ok after
      → (d : DomainId) × (after ≡ (some d, min (count + 1) u32_max))
        × IsAddressed header d proof
        × ((e : DomainId) → before ≡ some e → e ≡ d)
  unfolding note_proof
  note_proof-IsAddressed header proof before count after h =
      let (d, to, h1) = ok_or-ok _ _ _ _ h in
      let (same, h2) = ensure-ok _ _ _ _ h1 in
      let (fits, h3) = >>-ok _ _ _ h2 in
      (
        d,
        ground arith,
        fits-IsAddressed header proof d to fits,
        λ e at. ground (arith, domain_beq_iff e d),
      )

  note_proofs-Carries :
      (header : EpochSummaryHeader) (proofs : List Bytes) (before : Option DomainId) (count : ℕ)
      (after : Option DomainId × ℕ) (t : DomainId)
      → count ≤ u32_max
      → note_proofs codec header proofs (before, count) ≡ ok after
      → after.0 ≡ some t
      → All (Carries header t) proofs
        × (after.1 ≡ min (count + length proofs) u32_max)
        × ((e : DomainId) → before ≡ some e → e ≡ t)
  unfolding note_proofs
  note_proofs-Carries header [] before count after t small h target =
      (tt, ground arith, λ e at. ground arith)
  note_proofs-Carries header (encoded ∷ rest) before count after t small h target =
      let (proof, decoded, h1) = ok_or-ok _ _ _ _ h in
      let (mid, noted, h2) = >>=-ok _ _ _ h1 in
      let (d, is_mid, addressed, old) =
        note_proof-IsAddressed header proof before count mid noted in
      let h3 : note_proofs codec header rest (some d, min (count + 1) u32_max) ≡ ok after =
        rw (← is_mid) h2 in
      let (carried, counted, same) =
        note_proofs-Carries header rest (some d) (min (count + 1) u32_max) after t (omega arith) h3
          target in
      let is_t = same d refl in
      (
        (
          record {
            proof = proof;
            decoded = decoded;
            addressed = subst (λ x. IsAddressed header x proof) is_t addressed;
          },
          carried,
        ),
        omega (arith, counted),
        λ e at. old e at ∙ is_t,
      )

  -- An accepted envelope against its package.
  pub record IsGenuine (envelope : RelayPackageEnvelope) (pkg : CertifiedSummaryPackage)
      : Type 0 where
    pub sealed : pkg.package_hash ≡ compute_package_hash codec pkg
    pub named : envelope.package_hash ≡ pkg.package_hash
    pub source : envelope.source_domain ≡ pkg.header.domain_id
    pub epoch : envelope.epoch_id ≡ pkg.header.epoch_id
    pub summary : envelope.summary_hash ≡ pkg.header.summary_hash
    pub first : Bytes
    pub storage_proof : SummaryHeaderStorageProof
    pub items : List Bytes
    pub proofs : pkg.inclusion_proofs ≡ first ∷ items
    pub storage : codec.decode_proof first ≡ some (summary_header_storage_v1 storage_proof)
    pub carried : All (Carries pkg.header envelope.target_domain) items
    pub some_item : 0 < length items
    pub counted : envelope.export_count ≡ min (length items) u32_max

  -- What the scan of the proofs found.
  pub record Scanned (header : EpochSummaryHeader) (proofs : List Bytes) (t : DomainId) (n : ℕ)
      : Type 0 where
    pub first : Bytes
    pub storage_proof : SummaryHeaderStorageProof
    pub items : List Bytes
    pub split : proofs ≡ first ∷ items
    pub storage : codec.decode_proof first ≡ some (summary_header_storage_v1 storage_proof)
    pub carried : All (Carries header t) items
    pub counted : n ≡ min (length items) u32_max

  is_storage_proof-some :
      (proof : InclusionProof)
      → is_storage_proof codec proof ≡ true
      → (p : SummaryHeaderStorageProof) × (proof ≡ summary_header_storage_v1 p)
  is_storage_proof-some (summary_header_storage_v1 p) h = (p, refl)
  is_storage_proof-some (export_v1 p) h = absurd (ground arith)
  is_storage_proof-some (finalized_import_v1 p) h = absurd (ground arith)
  is_storage_proof-some (governance_v1 p) h = absurd (ground arith)

  scan_proofs-Scanned :
      (header : EpochSummaryHeader) (proofs : List Bytes) (t : DomainId) (n : ℕ)
      → scan_proofs codec header proofs ≡ ok (some t, n)
      → Scanned header proofs t n
  unfolding scan_proofs
  scan_proofs-Scanned header [] t n h = absurd (ground arith)
  scan_proofs-Scanned header (first ∷ items) t n h =
      let (proof, decoded, h1) = ok_or-ok _ _ _ _ h in
      let (storage, h2) = ensure-ok _ _ _ _ h1 in
      let (p, is_p) = is_storage_proof-some proof storage in
      let (carried, counted, _) =
        note_proofs-Carries header items none 0 (some t, n) t (omega arith) h2 refl in
      record {
        first = first;
        storage_proof = p;
        items = items;
        split = refl;
        storage = decoded ∙ ap some is_p;
        carried = carried;
        counted = omega (arith, counted);
      }

  derive-Scanned :
      (pkg : CertifiedSummaryPackage) (derived : DomainId × ℕ)
      → derive_target_domain codec pkg ≡ ok derived
      → Scanned pkg.header pkg.inclusion_proofs derived.0 derived.1
        × (2 ≤ length pkg.inclusion_proofs)
  unfolding derive_target_domain
  derive-Scanned pkg derived h =
      let (long, h1) = ensure-ok _ _ _ _ h in
      let (seen, scanned, h2) = >>=-ok _ _ _ h1 in
      let (t, at, h3) = ok_or-ok _ _ _ _ h2 in
      let same : seen ≡ (some derived.0, derived.1) = ground arith in
      (
        scan_proofs-Scanned pkg.header pkg.inclusion_proofs derived.0 derived.1
            (rw same at scanned),
        ground arith,
      )

  pub decode_and_validate_envelope-IsGenuine :
      (body : Bytes) (envelope : RelayPackageEnvelope) (pkg : CertifiedSummaryPackage)
      → decode_and_validate_envelope codec body ≡ ok (envelope, pkg)
      → IsGenuine envelope pkg
  unfolding decode_and_validate_envelope
  decode_and_validate_envelope-IsGenuine body envelope pkg h =
      let (e, _, h1) = ok_or-ok _ _ _ _ h in
      let (p, _, h2) = ok_or-ok _ _ _ _ h1 in
      let (sealed, h3) = ensure-ok _ _ _ _ h2 in
      let (named, h4) = ensure-ok _ _ _ _ h3 in
      let (source, h5) = ensure-ok _ _ _ _ h4 in
      let (epoch, h6) = ensure-ok _ _ _ _ h5 in
      let (summary, h7) = ensure-ok _ _ _ _ h6 in
      let (derived, found, h8) = >>=-ok _ _ _ h7 in
      let (target, h9) = ensure-ok _ _ _ _ h8 in
      let (count, h10) = ensure-ok _ _ _ _ h9 in
      let (scanned, long) = derive-Scanned p derived found in
      let is_target = (domain_beq_iff derived.0 e.target_domain).0 target in
      let genuine : IsGenuine e p = record {
        sealed = ground arith;
        named = ground arith;
        source = ground (arith, domain_beq_iff p.header.domain_id e.source_domain);
        epoch = ground arith;
        summary = ground arith;
        first = scanned.first;
        storage_proof = scanned.storage_proof;
        items = scanned.items;
        proofs = scanned.split;
        storage = scanned.storage;
        carried = subst (λ d. All (Carries p.header d) scanned.items) is_target scanned.carried;
        some_item = omega (arith, ap length scanned.split);
        counted = ground (arith, scanned.counted);
      } in
      subst₂ IsGenuine (ground arith) (ground arith) genuine
