-- ===== src/Relay/Histories/Reached.antt =====
-- Every history keeps the records sound.
use interplanetary_asynchron.Prelude.{
  ℕ, suc, ◌≡◌, refl, sym, ap, subst, ◌∙◌, inl, inr, Option, none, some, arith, Option-cases,
  eq_or_ne, nat_eq, pair_eq,
}
use interplanetary_asynchron.Packages.{
  Bytes, RelayPackageEnvelope, CertifiedSummaryPackage, PackageCodec,
}
use interplanetary_asynchron.Prelude.Index.{
  find_by, find_by-key, find_by-put_here, find_by-put_other,
}
use interplanetary_asynchron.Prelude.Map.{Map, get, insert, get-insert_self, get-insert_other}
use interplanetary_asynchron.Relay.Delivery.{Reply, RelaySettings}
use interplanetary_asynchron.Relay.Envelope.Accepted.{
  IsGenuine, decode_and_validate_envelope-IsGenuine,
}
use interplanetary_asynchron.Relay.Histories.{Reach, begins, submits, visits, restarts}
use interplanetary_asynchron.Relay.Histories.Sound.{
  IsSound, IsBounded, HasPayload, IsKept, Becomes-IsBounded, Becomes-path,
}
use interplanetary_asynchron.Relay.Histories.Steps.{
  Submitted, submit_package-Submitted, restart-find,
}
use interplanetary_asynchron.Relay.Scheduler.{
  poll_at, visit, normalize_state, normalize_restart, restart,
}
use interplanetary_asynchron.Relay.Scheduler.Transitions.{Leads}
use interplanetary_asynchron.Relay.Scheduler.Visits.{visit-Leads, visit-none}
use interplanetary_asynchron.Relay.Store.{
  new_record, scheduled, RelayQueueState, queued, blocked_by_blackout, in_delivery, delivered,
  importer_acked, retrying, failed, Key, RelayPackageRecord, key_of, envelope_key, RelayStore,
  find_record, persist_record, save_index, accept_new,
}
use interplanetary_asynchron.Types.Scale.{domain_eq}

module _ (settings : RelaySettings) (codec : PackageCodec) where
  -- The same file under the same name.
  HasPayload-moved :
      (payloads later : Map Key Bytes) (r c : RelayPackageRecord)
      → key_of c ≡ key_of r
      → get later (key_of r) ≡ get payloads (key_of r)
      → HasPayload settings codec payloads r
      → HasPayload settings codec later c
  HasPayload-moved payloads later r c same_key same_file p = record {
    envelope = p.envelope;
    pkg = p.pkg;
    is_genuine = p.is_genuine;
    same_key = p.same_key ∙ sym same_key;
    stored = ap (get later) same_key ∙ same_file ∙ p.stored;
  }

  Leads-IsSound :
      (n : ℕ) (s t : RelayStore) (r : RelayPackageRecord)
      → IsSound settings codec n s
      → find_record s.packages (key_of r) ≡ some r
      → Leads settings s r t
      → IsSound settings codec n t
  Leads-IsSound n s t r sound found leads = record {
    saved = leads.holds.saved sound.saved;
    kept = λ k c at. elim (eq_or_ne (key_of r) k) [
      | inl same ↦
          let is_current : leads.current ≡ c = ground (arith, leads.holds.here, at, same) in
          subst (IsKept settings codec n t.payloads) is_current current_kept
      | inr other ↦
          subst (λ p. IsKept settings codec n p c) (sym leads.holds.payloads)
            (sound.kept k c (sym (leads.holds.others k other) ∙ at))
    ];
  }
    where
      current_kept : IsKept settings codec n t.payloads leads.current
      current_kept =
          let old = sound.kept (key_of r) r found in
          record {
            bounded = Becomes-IsBounded settings codec n r old.bounded leads.current leads.becomes;
            path =
                Becomes-path settings codec r leads.current leads.becomes
                ∙ old.path
                ∙ sym leads.holds.same_key;
            payload =
                HasPayload-moved s.payloads t.payloads r leads.current leads.holds.same_key
                  (ap (λ p. get p (key_of r)) leads.holds.payloads) old.payload;
          }

  visit-IsSound :
      (n : ℕ) (s : RelayStore) (key : Key) (tested_at now : ℕ) (reply : Reply)
      → IsSound settings codec n s
      → IsSound settings codec n (visit settings key tested_at now reply s).0
  visit-IsSound n s key tested_at now reply sound =
      elim (Option-cases (find_record s.packages key)) [
        | inl missing ↦
            subst (IsSound settings codec n)
              (sym (visit-none settings s key tested_at now reply missing)) sound
        | inr (r, found) ↦
            Leads-IsSound n s _ r sound
              (ap (find_record s.packages) (find_by-key key_of s.packages key r found) ∙ found)
              (visit-Leads settings s key r tested_at now reply found)
      ]

  -- Where a new record is written.
  new-IsKept :
      (n : ℕ) (s : RelayStore) (envelope : RelayPackageEnvelope) (pkg : CertifiedSummaryPackage)
      (now : ℕ)
      → IsGenuine codec envelope pkg
      → IsKept settings codec n
          (insert s.payloads (envelope_key envelope) (codec.encode_envelope envelope))
          (new_record envelope now)
  new-IsKept n s envelope pkg now genuine = record {
    bounded = λ profile at limited. omega arith;
    path = refl;
    payload = record {
      envelope = envelope;
      pkg = pkg;
      is_genuine = genuine;
      same_key = refl;
      stored = get-insert_self s.payloads (envelope_key envelope) (codec.encode_envelope envelope);
    };
  }

  accept_new-IsSound :
      (n : ℕ) (s : RelayStore) (envelope : RelayPackageEnvelope) (pkg : CertifiedSummaryPackage)
      (now : ℕ)
      → IsGenuine codec envelope pkg
      → IsSound settings codec n s
      → IsSound settings codec n
          (save_index (accept_new envelope (codec.encode_envelope envelope) now s))
  unfolding accept_new persist_record
  accept_new-IsSound n s envelope pkg now genuine sound = record {
    saved = refl;
    kept = λ k c at. elim (eq_or_ne (envelope_key envelope) k) [
      | inl same ↦
          let is_new : new_record envelope now ≡ c =
            ground
              (arith, find_by-put_here key_of s.packages (new_record envelope now) k same, at) in
          subst
            (IsKept settings codec n
              (insert s.payloads (envelope_key envelope) (codec.encode_envelope envelope)))
            is_new (new-IsKept n s envelope pkg now genuine)
      | inr other ↦
          let before =
            sym (find_by-put_other key_of s.packages (new_record envelope now) k other) ∙ at in
          let old = sound.kept k c before in
          let named = find_by-key key_of s.packages k c before in
          record {
            bounded = old.bounded;
            path = old.path;
            payload =
                HasPayload-moved s.payloads _ c c refl
                  (get-insert_other s.payloads (envelope_key envelope) (key_of c)
                    (codec.encode_envelope envelope) (λ e. other (e ∙ named)))
                  old.payload;
          }
    ];
  }

  submit-IsSound :
      (n : ℕ) (s t : RelayStore) (body : Bytes) (now : ℕ)
      → IsSound settings codec n s
      → Submitted codec body now s t
      → IsSound settings codec n t
  submit-IsSound n s t body now sound b = elim b.outcome [
    | inl (same, _) ↦
        subst (IsSound settings codec n) (sym same) (record { saved = refl; kept = sound.kept })
    | inr (fresh, new) ↦ subst (IsSound settings codec n) (sym new) (
        accept_new-IsSound n s b.envelope b.pkg now
          (decode_and_validate_envelope-IsGenuine codec body b.envelope b.pkg b.is_valid) sound)
  ]

  module _ (n : ℕ) (payloads : Map Key Bytes) (now : ℕ) (r : RelayPackageRecord)
      (old : IsKept settings codec n payloads r) where
    -- The same name and file, and an attempt more.
    restarted-IsKept :
        (c : RelayPackageRecord)
        → key_of c ≡ key_of r
        → c.payload_path ≡ r.payload_path
        → IsBounded settings codec (suc n) c
        → IsKept settings codec (suc n) payloads c
    restarted-IsKept c same_key same_path bounded = record {
      bounded = bounded;
      path = same_path ∙ old.path ∙ sym same_key;
      payload = HasPayload-moved payloads payloads r c same_key refl old.payload;
    }

    rests-IsKept : IsKept settings codec (suc n) payloads r
    rests-IsKept =
        restarted-IsKept r refl refl
          (λ profile at limited. omega (arith, old.bounded profile at limited))

    normalize_state-IsKept :
        (state : RelayQueueState) (poll_at : Option ℕ)
        → r.state ≡ state
        → IsKept settings codec
            (suc n)
            payloads
            (normalize_state state poll_at settings.ack_poll_millis now r)
    unfolding normalize_state
    normalize_state-IsKept in_delivery poll_at at =
        restarted-IsKept _ refl refl
          (λ profile link limited. omega (arith, rw at at old.bounded profile link limited))
    normalize_state-IsKept delivered none at =
        restarted-IsKept _ refl refl
          (λ profile link limited. omega (arith, old.bounded profile link limited))
    normalize_state-IsKept delivered (some poll_at) at = rests-IsKept
    normalize_state-IsKept queued poll_at at = rests-IsKept
    normalize_state-IsKept scheduled poll_at at = rests-IsKept
    normalize_state-IsKept blocked_by_blackout poll_at at = rests-IsKept
    normalize_state-IsKept importer_acked poll_at at = rests-IsKept
    normalize_state-IsKept retrying poll_at at = rests-IsKept
    normalize_state-IsKept failed poll_at at = rests-IsKept

  restart-IsSound :
      (n : ℕ) (s : RelayStore) (now : ℕ)
      → IsSound settings codec n s
      → IsSound settings codec (suc n) (restart settings.ack_poll_millis now s)
  unfolding restart
  restart-IsSound n s now sound = record {
    saved = refl;
    kept = λ k c at.
        let at' = sym (restart-find settings.ack_poll_millis now s k) ∙ at in
        elim (Option-cases (find_record s.saved k)) [
          | inl missing ↦ absurd (ground (arith, at', missing))
          | inr (r, found) ↦
              let is_c : normalize_restart settings.ack_poll_millis now r ≡ c =
                ground (arith, at', found) in
              subst
                (IsKept settings codec (suc n) (restart settings.ack_poll_millis now s).payloads)
                is_c
                (normalize_state-IsKept n s.payloads now r
                  (sound.kept k r (ap (λ p. find_record p k) (sym sound.saved) ∙ found)) r.state
                  r.next_ack_poll_at_unix_ms refl)
        ];
  }

  -- In every history of the relay, with whatever clocks and replies: the index on disk is the one in
  -- memory, every record has its payload file, which holds the encoded bytes of a genuine envelope,
  -- as IsGenuine has it, that the record is named after, and no record has more delivery attempts
  -- than its link's limit, where there is one, with one more for each restart, and one more once it
  -- does not wait for an attempt.
  pub Reach-IsKept :
      (n : ℕ) (s : RelayStore) → Reach settings codec n s → IsSound settings codec n s
  unfolding find_by
  Reach-IsKept n s begins = record { saved = refl; kept = λ k r at. absurd (ground (arith, at)) }
  Reach-IsKept n s (submits _ t _ body now receipt before h) =
      submit-IsSound n t s body now (Reach-IsKept n t before)
        (submit_package-Submitted codec body now t s receipt h)
  Reach-IsKept n s (visits _ t key tested_at now reply before) =
      visit-IsSound n t key tested_at now reply (Reach-IsKept n t before)
  Reach-IsKept n s (restarts m t now before) = restart-IsSound m t now (Reach-IsKept m t before)
