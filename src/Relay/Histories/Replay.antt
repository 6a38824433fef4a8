-- ===== src/Relay/Histories/Replay.antt =====
-- A package that is submitted again.
use interplanetary_asynchron.Prelude.{
  ℕ, ◌≡◌, refl, sym, ap, ◌∙◌, inl, inr, true, false, some, if◌then◌else◌, Bool-cases, nat_eq,
  pair_eq,
}
use interplanetary_asynchron.Config.Text.{text_beq, text_eq}
use interplanetary_asynchron.Packages.{
  Bytes, RelayPackageEnvelope, CertifiedSummaryPackage, PackageCodec,
}
use interplanetary_asynchron.Prelude.Index.{find_by-key}
use interplanetary_asynchron.Prelude.Map.{get}
use interplanetary_asynchron.Prelude.Outcome.{ok, err, ◌>>=◌, ◌>>◌, ensure, ok_or}
use interplanetary_asynchron.Relay.Blackout.{conflicting_payload}
use interplanetary_asynchron.Relay.Delivery.{RelaySettings}
use interplanetary_asynchron.Relay.Envelope.{decode_and_validate_envelope}
use interplanetary_asynchron.Relay.Histories.{Reach}
use interplanetary_asynchron.Relay.Histories.Reached.{Reach-IsKept}
use interplanetary_asynchron.Relay.Store.{
  RelayPackageRecord, key_of, envelope_key, RelayStore, find_record, accept_known, accept_envelope,
  submit_package,
}
use interplanetary_asynchron.Types.Scale.{domain_eq}

module _ (settings : RelaySettings) (codec : PackageCodec) where
  -- A submission of a known package, by what its payload file holds.
  module _ (s : RelayStore) (body : Bytes) (envelope : RelayPackageEnvelope)
      (pkg : CertifiedSummaryPackage) (r : RelayPackageRecord) (file : Bytes) (now : ℕ)
      (saved : s.saved ≡ s.packages)
      (valid : decode_and_validate_envelope codec body ≡ ok (envelope, pkg))
      (found : find_record s.packages (envelope_key envelope) ≡ some r)
      (stored : get s.payloads r.payload_path ≡ some file) where
    accepts :
        file ≡ codec.encode_envelope envelope
        → accept_envelope codec envelope now s ≡ ok (s, (r, true))
    unfolding accept_envelope accept_known ◌>>=◌ ◌>>◌ ok_or ensure
    accepts same =
        rw (accept_envelope, found)
          (rw (stored, (text_eq.beq_iff file (codec.encode_envelope envelope)).1 same) refl)

    submit-known :
        file ≡ codec.encode_envelope envelope
        → submit_package codec body now s ≡ ok (s, (r.state, true))
    unfolding submit_package ◌>>=◌
    submit-known same =
        rw (valid, accepts same)
          (ap (λ p. ok (record s { saved = p }, (r.state, true))) (sym saved))

    conflicts :
        text_beq file (codec.encode_envelope envelope) ≡ false
        → submit_package codec body now s ≡ err conflicting_payload
    unfolding submit_package accept_envelope ◌>>=◌ accept_known ◌>>◌ ok_or ensure
    conflicts differs = rw (valid, accept_envelope, found) (rw (stored, differs) refl)

    submit-either : submit_package codec body now s ≡ (
        if text_beq file (codec.encode_envelope envelope)
        then ok (s, (r.state, true))
        else err conflicting_payload)
    submit-either = elim (Bool-cases (text_beq file (codec.encode_envelope envelope))) [
      | inl y ↦ rw y (submit-known ((text_eq.beq_iff file (codec.encode_envelope envelope)).0 y))
      | inr n ↦ rw n (conflicts n)
    ]

  -- A valid submission of a package whose record the relay has: if the payload file holds the bytes of
  -- the same envelope, the answer is the record's state and that the package is known, and nothing
  -- changes; if it holds others, the submission is refused as a conflict.
  pub submit_package-known :
      (n : ℕ) (s : RelayStore) (body : Bytes) (envelope : RelayPackageEnvelope)
      (pkg : CertifiedSummaryPackage) (r : RelayPackageRecord) (now : ℕ)
      → Reach settings codec n s
      → decode_and_validate_envelope codec body ≡ ok (envelope, pkg)
      → find_record s.packages (envelope_key envelope) ≡ some r
      → (original : RelayPackageEnvelope) × (envelope_key original ≡ envelope_key envelope)
        × (get s.payloads (envelope_key envelope) ≡ some (codec.encode_envelope original))
        × (submit_package codec body now s ≡ (
            if text_beq (codec.encode_envelope original) (codec.encode_envelope envelope)
            then ok (s, (r.state, true))
            else err conflicting_payload))
  submit_package-known n s body envelope pkg r now reached valid found =
      let sound = Reach-IsKept settings codec n s reached in
      let kept = sound.kept (envelope_key envelope) r found in
      let named = find_by-key key_of s.packages (envelope_key envelope) r found in
      let stored = ap (get s.payloads) kept.path ∙ kept.payload.stored in
      (
        kept.payload.envelope,
        kept.payload.same_key ∙ named,
        ap (get s.payloads) (sym named) ∙ kept.payload.stored,
        submit-either s body envelope pkg r _ now sound.saved valid found stored,
      )
