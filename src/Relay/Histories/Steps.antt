-- ===== src/Relay/Histories/Steps.antt =====
-- What a step leaves in the index.
use mathlib.Core.Option
use interplanetary_asynchron.Prelude.{
  ℕ, ◌≡◌, refl, sym, ap, ◌∙◌, ◌⊎◌, inl, inr, Bool, Option, none, some, arith, nat_eq, pair_eq,
}
use interplanetary_asynchron.Config.Text.{text_beq_iff}
use interplanetary_asynchron.Packages.{
  Bytes, RelayPackageEnvelope, CertifiedSummaryPackage, PackageCodec,
}
use interplanetary_asynchron.Prelude.Index.{find_by-map}
use interplanetary_asynchron.Prelude.Map.{get}
use interplanetary_asynchron.Prelude.Outcome.{ok, >>=-ok, ensure-ok, ok_or-ok, ok_injective}
use interplanetary_asynchron.Relay.Envelope.{decode_and_validate_envelope}
use interplanetary_asynchron.Relay.Scheduler.{poll_at, normalize_state, normalize_restart, restart}
use interplanetary_asynchron.Relay.Store.{
  scheduled, RelayQueueState, queued, blocked_by_blackout, in_delivery, delivered, importer_acked,
  retrying, failed, Key, RelayPackageRecord, key_of, envelope_key, RelayStore, find_record,
  save_index, accept_known, accept_new, accept_envelope, submit_package,
}
use interplanetary_asynchron.Types.Scale.{domain_eq}

module _ (codec : PackageCodec) where
  -- The payload file of the record that is found holds the envelope.
  pub record IsKnown (envelope : RelayPackageEnvelope) (t : RelayStore) : Type 0 where
    pub existing : RelayPackageRecord
    pub found : find_record t.packages (envelope_key envelope) ≡ some existing
    pub stored : get t.payloads existing.payload_path ≡ some (codec.encode_envelope envelope)

  -- A submission that succeeds brings a valid envelope, known or new.
  pub record Submitted (body : Bytes) (now : ℕ) (t u : RelayStore) : Type 0 where
    pub envelope : RelayPackageEnvelope
    pub pkg : CertifiedSummaryPackage
    pub is_valid : decode_and_validate_envelope codec body ≡ ok (envelope, pkg)
    pub outcome :
        ((u ≡ save_index t) × IsKnown envelope t)
        ⊎ ((find_record t.packages (envelope_key envelope) ≡ none)
            × (u ≡ save_index (accept_new envelope (codec.encode_envelope envelope) now t)))

  accept_known-store :
      (existing : RelayPackageRecord) (encoded : Bytes) (t v : RelayStore)
      (receipt : RelayPackageRecord × Bool)
      → accept_known existing encoded t ≡ ok (v, receipt)
      → (v ≡ t) × (get t.payloads existing.payload_path ≡ some encoded)
  unfolding accept_known
  accept_known-store existing encoded t v receipt h =
      let (current, read, h1) = ok_or-ok _ _ _ _ h in
      let (same, h2) = ensure-ok _ _ _ _ h1 in
      (
        ap (λ p. p.0) (sym (ok_injective _ _ h2)),
        read ∙ ap some ((text_beq_iff current encoded).0 same),
      )

  accept-cases :
      (envelope : RelayPackageEnvelope) (now : ℕ) (t v : RelayStore)
      (receipt : RelayPackageRecord × Bool) (found : Option RelayPackageRecord)
      → find_record t.packages (envelope_key envelope) ≡ found
      → accept_envelope codec envelope now t ≡ ok (v, receipt)
      → ((v ≡ t) × IsKnown envelope t)
        ⊎ ((find_record t.packages (envelope_key envelope) ≡ none)
            × (v ≡ accept_new envelope (codec.encode_envelope envelope) now t))
  unfolding accept_envelope
  accept-cases envelope now t v receipt none at h =
      inr (at, ap (λ p. p.0) (sym (ok_injective _ _ (rw (accept_envelope, at) at h))))
  accept-cases envelope now t v receipt (some existing) at h =
      let (same, stored) =
        accept_known-store existing _ t v receipt (rw (accept_envelope, at) at h) in
      inl (same, record { existing = existing; found = at; stored = stored })

  pub submit_package-Submitted :
      (body : Bytes) (now : ℕ) (t u : RelayStore) (receipt : RelayQueueState × Bool)
      → submit_package codec body now t ≡ ok (u, receipt)
      → Submitted body now t u
  unfolding submit_package
  submit_package-Submitted body now t u receipt h =
      let ((envelope, pkg), valid, h1) = >>=-ok _ _ _ h in
      let ((v, record_and_flag), accepted, h2) = >>=-ok _ _ _ h1 in
      let saved : u ≡ save_index v = ground arith in
      record {
        envelope = envelope;
        pkg = pkg;
        is_valid = valid;
        outcome = elim (accept-cases envelope now t v record_and_flag _ refl accepted) [
          | inl (same, known) ↦ inl (saved ∙ ap save_index same, known)
          | inr (fresh, new) ↦ inr (fresh, saved ∙ ap save_index new)
        ];
      }

normalize_state-key :
    (state : RelayQueueState) (poll_at : Option ℕ) (ack_poll_millis now : ℕ)
    (r : RelayPackageRecord)
    → key_of (normalize_state state poll_at ack_poll_millis now r) ≡ key_of r
unfolding normalize_state
normalize_state-key in_delivery poll_at ack_poll_millis now r = refl
normalize_state-key delivered none ack_poll_millis now r = refl
normalize_state-key delivered (some poll_at) ack_poll_millis now r = refl
normalize_state-key queued poll_at ack_poll_millis now r = refl
normalize_state-key scheduled poll_at ack_poll_millis now r = refl
normalize_state-key blocked_by_blackout poll_at ack_poll_millis now r = refl
normalize_state-key importer_acked poll_at ack_poll_millis now r = refl
normalize_state-key retrying poll_at ack_poll_millis now r = refl
normalize_state-key failed poll_at ack_poll_millis now r = refl

pub restart-find :
    (ack_poll_millis now : ℕ) (t : RelayStore) (k : Key)
    → find_record (restart ack_poll_millis now t).packages k
      ≡ Option.map (normalize_restart ack_poll_millis now) (find_record t.saved k)
unfolding restart
restart-find ack_poll_millis now t k =
    find_by-map key_of (normalize_restart ack_poll_millis now)
      (λ r. normalize_state-key r.state r.next_ack_poll_at_unix_ms ack_poll_millis now r) t.saved k
