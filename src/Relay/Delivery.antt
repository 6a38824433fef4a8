-- ===== src/Relay/Delivery.antt =====
-- services/relay/src/lib.rs: the scheduling of a package and the attempts to deliver it. A clock
-- reading and the importer's reply are arguments; an action that fails returns its error beside the
-- store, since what it wrote before stays written.
use interplanetary_asynchron.Prelude.{
  ℕ, String, Bool, not, ◌&&◌, ◌||◌, Option, none, some, ltb, leb, nat_beq, if◌then◌else◌, nat_eq,
  pair_eq,
}
use interplanetary_asynchron.Config.Transport.{
  ImporterTransportConfig, LinkProfileConfig, TransportConfig, link,
}
use interplanetary_asynchron.Packages.{Bytes, is_terminal, ImporterPackageStatusView}
use interplanetary_asynchron.Prelude.Map.{get}
use interplanetary_asynchron.Prelude.Outcome.{Outcome, ok, err}
use interplanetary_asynchron.Relay.Blackout.{
  RelayError, missing_link_profile, missing_importer_endpoint, missing_payload,
  undecodable_response, Chrono, next_delivery_after,
}
use interplanetary_asynchron.Relay.Records.{
  saturating_add, saturating_mul, to_scheduled, to_blocked, to_in_delivery, to_acked_on_delivery,
  to_delivered, to_failed, to_retry, retry_delay_seconds,
}
use interplanetary_asynchron.Relay.Store.{
  DeliveryError, importer_returned, transient_status, request_failed, RelayPackageRecord, key_of,
  RelayStore, find_record, persist_record, save_index,
}
use interplanetary_asynchron.Types.Scale.{domain_eq}

-- An HTTP response by its status, what its body decodes to, and its text; or a request that failed.
pub data Reply : Type 0 where
  response : ℕ → Option ImporterPackageStatusView → String → Reply
  unreachable : String → Reply

abbrev pub is_client_error : ℕ → Bool
is_client_error status = leb 400 status && ltb status 500

abbrev pub is_success : ℕ → Bool
is_success status = leb 200 status && ltb status 300

-- What the relay runs with.
pub record RelaySettings : Type 0 where
  pub chrono : Chrono
  pub ack_poll_millis : ℕ
  pub transport : TransportConfig

abbrev pub Effect : Type 0
Effect = RelayStore × Option RelayError

abbrev pub done : RelayStore → Effect
done s = (s, none)

-- `update_record`: the stored record is read again by the snapshot's key.
unfoldable pub update_record :
    RelayPackageRecord → (RelayPackageRecord → RelayPackageRecord) → RelayStore → RelayStore
update_record snapshot mutator s = elim (find_record s.packages (key_of snapshot)) [
  | none ↦ s
  | some current ↦ save_index (persist_record (mutator current) s)
]

-- The end of `schedule_record` and of `schedule_retry`, from what `next_delivery_after` gave.
unfoldable pub schedule_at : RelayPackageRecord → ℕ → RelayStore → Outcome RelayError ℕ → Effect
schedule_at snapshot due s (err e) = (s, some e)
schedule_at snapshot due s (ok at) =
    done (update_record snapshot (to_scheduled (not (nat_beq at due)) at) s)

unfoldable pub retry_at :
    RelayPackageRecord → ℕ → DeliveryError → RelayStore → Outcome RelayError ℕ → Effect
retry_at snapshot due error s (err e) = (s, some e)
retry_at snapshot due error s (ok at) =
    done (update_record snapshot (to_retry (not (nat_beq at due)) at error) s)

module _ (settings : RelaySettings) where
  unfoldable pub schedule_on : RelayPackageRecord → RelayStore → Option LinkProfileConfig → Effect
  schedule_on snapshot s none = (s, some missing_link_profile)
  schedule_on snapshot s (some profile) =
      let due =
        saturating_add snapshot.relay_accepted_at_unix_ms
          (saturating_mul profile.base_one_way_delay_seconds 1000) in
      schedule_at snapshot due s (next_delivery_after settings.chrono profile due)

  unfoldable pub schedule_record : RelayPackageRecord → RelayStore → Effect
  unfolding schedule_on
  schedule_record snapshot s =
      schedule_on snapshot s (link settings.transport snapshot.source_domain snapshot.target_domain)

  unfoldable pub schedule_retry :
      RelayPackageRecord → ℕ → LinkProfileConfig → DeliveryError → RelayStore → Effect
  schedule_retry snapshot now profile error s =
      if not (nat_beq profile.max_attempts 0) && leb profile.max_attempts snapshot.delivery_attempts
      then done (update_record snapshot (to_failed now error) s)
      else let due =
          saturating_add now
            (saturating_mul (retry_delay_seconds profile snapshot.delivery_attempts) 1000) in
        retry_at snapshot due error s (next_delivery_after settings.chrono profile due)

  -- A receipt with status 200 or 202.
  unfoldable pub take_receipt :
      RelayPackageRecord → ℕ → Option ImporterPackageStatusView → RelayStore → Effect
  take_receipt snapshot now none s = (s, some undecodable_response)
  take_receipt snapshot now (some status) s =
      if is_terminal status.state
      then done (update_record snapshot (to_acked_on_delivery now status) s)
      else done (
          update_record snapshot
            (to_delivered now (saturating_add now settings.ack_poll_millis) status) s)

  unfoldable pub take_reply :
      RelayPackageRecord → ℕ → LinkProfileConfig → Reply → RelayStore → Effect
  take_reply snapshot now profile (response status receipt text) s =
      if nat_beq status 200 || nat_beq status 202
      then take_receipt snapshot now receipt s
      else if is_client_error status
      then done (update_record snapshot (to_failed now (importer_returned status text)) s)
      else schedule_retry snapshot now profile (transient_status status) s
  take_reply snapshot now profile (unreachable text) s =
      schedule_retry snapshot now profile (request_failed text) s

  -- The payload and the importer's address, and then the request.
  unfoldable pub send :
      RelayPackageRecord
      → ℕ
      → LinkProfileConfig
      → Reply
      → RelayStore
      → Option Bytes
      → Option ImporterTransportConfig
      → Effect
  send snapshot now profile reply s none _ = (s, some missing_payload)
  send snapshot now profile reply s (some payload) none = (s, some missing_importer_endpoint)
  send snapshot now profile reply s (some payload) (some importer) =
      take_reply snapshot now profile reply s

  -- The attempt itself, once no blackout window holds it back.
  unfoldable pub deliver : RelayPackageRecord → ℕ → LinkProfileConfig → Reply → RelayStore → Effect
  deliver snapshot now profile reply s =
      let t = update_record snapshot to_in_delivery s in
      send snapshot now profile reply t (get t.payloads (key_of snapshot))
        (get settings.transport.importers snapshot.target_domain)

  unfoldable pub deliver_after :
      RelayPackageRecord
      → ℕ
      → LinkProfileConfig
      → Reply
      → RelayStore
      → Outcome RelayError ℕ
      → Effect
  deliver_after snapshot now profile reply s (err e) = (s, some e)
  deliver_after snapshot now profile reply s (ok until) =
      if ltb now until
      then done (update_record snapshot (to_blocked until) s)
      else deliver snapshot now profile reply s

  unfoldable pub deliver_unless_blocked :
      RelayPackageRecord → ℕ → LinkProfileConfig → Reply → Option ℕ → RelayStore → Effect
  deliver_unless_blocked snapshot now profile reply none s = deliver snapshot now profile reply s
  deliver_unless_blocked snapshot now profile reply (some at) s =
      deliver_after snapshot now profile reply s (next_delivery_after settings.chrono profile at)

  unfoldable pub attempt_on :
      RelayPackageRecord → ℕ → Reply → RelayStore → Option LinkProfileConfig → Effect
  attempt_on snapshot now reply s none = (s, some missing_link_profile)
  attempt_on snapshot now reply s (some profile) =
      deliver_unless_blocked snapshot now profile reply snapshot.next_delivery_at_unix_ms s

  unfoldable pub attempt_delivery : RelayPackageRecord → ℕ → Reply → RelayStore → Effect
  unfolding attempt_on
  attempt_delivery snapshot now reply s =
      attempt_on snapshot now reply s
        (link settings.transport snapshot.source_domain snapshot.target_domain)
