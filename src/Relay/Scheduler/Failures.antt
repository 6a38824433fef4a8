-- ===== src/Relay/Scheduler/Failures.antt =====
-- An attempt that the importer does not answer, or answers with a transient status.
use interplanetary_asynchron.Prelude.{
  ℕ, ◌+◌, ◌≤◌, min, ◌≡◌, refl, ap, ◌∙◌, ◌≢◌, ◌↔◌, inl, inr, Bool, true, false, not, ◌&&◌, ◌||◌,
  some, arith, ltb, leb, nat_beq, Bool-cases, nat_eq, pair_eq,
}
use interplanetary_asynchron.Config.Transport.{ImporterTransportConfig, LinkProfileConfig}
use interplanetary_asynchron.Packages.{Bytes}
use interplanetary_asynchron.Prelude.Index.{find_by-key}
use interplanetary_asynchron.Prelude.Map.{get}
use interplanetary_asynchron.Prelude.Outcome.{Outcome, ok, err}
use interplanetary_asynchron.Relay.Blackout.{RelayError, next_delivery_after}
use interplanetary_asynchron.Relay.Delivery.{
  Reply, response, unreachable, RelaySettings, update_record, retry_at, schedule_retry, take_reply,
}
use interplanetary_asynchron.Relay.Records.{to_in_delivery, to_failed, to_retry}
use interplanetary_asynchron.Relay.Scheduler.{visit}
use interplanetary_asynchron.Relay.Scheduler.Attempts.{attempted, rewritten, visit-reply}
use interplanetary_asynchron.Relay.Scheduler.Transitions.{is_waiting, gives_up, link_for}
use interplanetary_asynchron.Relay.Store.{
  failed, Key, DeliveryError, transient_status, request_failed, RelayPackageRecord, key_of,
  RelayStore, find_record,
}
use interplanetary_asynchron.Types.Scale.{domain_eq, u32_max}

abbrev pub is_failure : Reply → Bool
is_failure (unreachable text) = true
is_failure (response status receipt text) =
    not (nat_beq status 200 || nat_beq status 202) && not (leb 400 status && ltb status 500)

-- What is left of the record under the key of `r`.
pub record Fails (profile : LinkProfileConfig) (r : RelayPackageRecord) (t : RelayStore)
    : Type 0 where
  pub current : RelayPackageRecord
  pub found : find_record t.packages (key_of r) ≡ some current
  pub attempts : current.delivery_attempts ≡ min (r.delivery_attempts + 1) u32_max
  pub final :
      (current.state ≡ failed)
      ↔ ((profile.max_attempts ≢ 0) × (profile.max_attempts ≤ r.delivery_attempts))

module _ (settings : RelaySettings) (s : RelayStore) (r : RelayPackageRecord) (now : ℕ)
    (profile : LinkProfileConfig) (found : find_record s.packages (key_of r) ≡ some r) where
  gives_up-limit :
      (gives_up profile r.delivery_attempts ≡ true)
      → (profile.max_attempts ≢ 0) × (profile.max_attempts ≤ r.delivery_attempts)
  gives_up-limit over = (λ none. ground arith, ground arith)

  -- A record that is not given up.
  goes_on :
      (c : RelayPackageRecord) (t : RelayStore)
      → find_record t.packages (key_of r) ≡ some c
      → c.delivery_attempts ≡ min (r.delivery_attempts + 1) u32_max
      → (c.state ≡ failed → ⊥)
      → gives_up profile r.delivery_attempts ≡ false
      → Fails profile r t
  goes_on c t at attempts state on = record {
    current = c;
    found = at;
    attempts = attempts;
    final = (λ h. absurd (state h), λ h. absurd (ground (arith, h.0, h.1)));
  }

  retry_at-Fails :
      (due : ℕ) (error : DeliveryError) (o : Outcome RelayError ℕ)
      → gives_up profile r.delivery_attempts ≡ false
      → Fails profile r (retry_at r due error (update_record r to_in_delivery s) o).0
  unfolding retry_at
  retry_at-Fails due error (err e) on =
      goes_on (to_in_delivery r) _ (attempted settings s r found).here refl (λ h. ground arith) on
  retry_at-Fails due error (ok at) on =
      goes_on _ _
        (rewritten settings s r found (to_retry (not (nat_beq at due)) at error) refl).here refl
        (λ h. ground arith) on

  schedule_retry-Fails :
      (error : DeliveryError)
      → Fails profile r
          (schedule_retry settings r now profile error (update_record r to_in_delivery s)).0
  unfolding schedule_retry
  schedule_retry-Fails error = elim (Bool-cases (gives_up profile r.delivery_attempts)) [
    | inl over ↦ rw over (record {
      current = to_failed now error (to_in_delivery r);
      found = (rewritten settings s r found (to_failed now error) refl).here;
      attempts = refl;
      final = (λ _. gives_up-limit over, λ _. refl);
    })
    | inr on ↦ rw on (retry_at-Fails _ error _ on)
  ]

  take_reply-Fails :
      (reply : Reply)
      → is_failure reply ≡ true
      → Fails profile r
          (take_reply settings r now profile reply (update_record r to_in_delivery s)).0
  unfolding take_reply
  take_reply-Fails (unreachable text) h = schedule_retry-Fails (request_failed text)
  take_reply-Fails (response status receipt text) h =
      let taken : (nat_beq status 200 || nat_beq status 202) ≡ false = ground arith in
      let refused : (leb 400 status && ltb status 500) ≡ false = ground arith in
      rw (taken, refused) (schedule_retry-Fails (transient_status status))

-- A visit to a record that waits for a delivery whose time has come, by the clock and by the
-- blackout windows over the scheduled time, and whose payload and importer are there, makes an
-- attempt, and when the importer does not answer it, or with a status that is neither a success nor a
-- client error, the record has one attempt more, and is failed just if the link has a limit which the
-- attempts before this one have reached.
pub visit-Fails :
    (settings : RelaySettings) (s : RelayStore) (key : Key) (r : RelayPackageRecord)
    (tested_at now : ℕ) (reply : Reply) (profile : LinkProfileConfig) (at until : ℕ)
    (payload : Bytes) (importer : ImporterTransportConfig)
    → find_record s.packages key ≡ some r
    → is_waiting r.state ≡ true
    → r.next_delivery_at_unix_ms ≡ some at
    → at ≤ tested_at
    → link_for settings r ≡ some profile
    → next_delivery_after settings.chrono profile at ≡ ok until
    → until ≤ now
    → get s.payloads key ≡ some payload
    → get settings.transport.importers r.target_domain ≡ some importer
    → is_failure reply ≡ true
    → Fails profile r (visit settings key tested_at now reply s).0
visit-Fails settings s key r tested_at now reply profile at until payload importer found waiting
      scheduled_at due linked clear passed paid addressed failing =
    rw
      (visit-reply settings s key r tested_at now reply profile at until payload importer found
        waiting scheduled_at due linked clear passed paid addressed)
      (take_reply-Fails settings s r now profile
        (ap (find_record s.packages) (find_by-key key_of s.packages key r found) ∙ found) reply
        failing)
