-- ===== src/Relay/Scheduler.antt =====
-- services/relay/src/lib.rs: what the scheduler does with a record at a visit, the polls of the
-- importer, and the restart.
pub mod Updates
pub mod Transitions
pub mod Visits
pub mod Attempts
pub mod Failures
pub mod Slots
use interplanetary_asynchron.Prelude.{
  ℕ, Bool, false, Option, none, some, map, leb, if◌then◌else◌, nat_eq, pair_eq,
}
use interplanetary_asynchron.Config.Transport.{ImporterTransportConfig}
use interplanetary_asynchron.Packages.{is_terminal, ImporterPackageStatusView}
use interplanetary_asynchron.Prelude.Map.{get}
use interplanetary_asynchron.Relay.Blackout.{missing_importer_endpoint, undecodable_response}
use interplanetary_asynchron.Relay.Delivery.{
  Reply, response, unreachable, is_client_error, is_success, RelaySettings, Effect, done,
  update_record, schedule_record, attempt_delivery,
}
use interplanetary_asynchron.Relay.Records.{
  saturating_add, to_acked_on_poll, to_polled, to_poll_failed, to_poll_again,
}
use interplanetary_asynchron.Relay.Store.{
  scheduled, RelayQueueState, queued, blocked_by_blackout, in_delivery, delivered, importer_acked,
  retrying, failed, Key, status_returned, polling_status, polling_failed, RelayPackageRecord,
  RelayStore, find_record, save_index,
}
use interplanetary_asynchron.Types.Scale.{domain_eq}

abbrev pub due_now : Option ℕ → ℕ → Bool
due_now none now = false
due_now (some due) now = leb due now

module _ (settings : RelaySettings) where
  unfoldable pub take_status :
      RelayPackageRecord → ℕ → Option ImporterPackageStatusView → RelayStore → Effect
  take_status snapshot now none s = (s, some undecodable_response)
  take_status snapshot now (some status) s =
      if is_terminal status.state
      then done (update_record snapshot (to_acked_on_poll now status) s)
      else done (
          update_record snapshot
            (to_polled now (saturating_add now settings.ack_poll_millis) status) s)

  unfoldable pub take_poll : RelayPackageRecord → ℕ → Reply → RelayStore → Effect
  take_poll snapshot now (response status view text) s =
      if is_success status
      then take_status snapshot now view s
      else if is_client_error status
      then done (update_record snapshot (to_poll_failed now (status_returned status text)) s)
      else done (
          update_record snapshot
            (to_poll_again (saturating_add now settings.ack_poll_millis) (polling_status status)) s)
  take_poll snapshot now (unreachable text) s = done (
      update_record snapshot
        (to_poll_again (saturating_add now settings.ack_poll_millis) (polling_failed text)) s)

  unfoldable pub poll_at :
      RelayPackageRecord → ℕ → Reply → RelayStore → Option ImporterTransportConfig → Effect
  poll_at snapshot now reply s none = (s, some missing_importer_endpoint)
  poll_at snapshot now reply s (some importer) = take_poll snapshot now reply s

  unfoldable pub poll_importer_status : RelayPackageRecord → ℕ → Reply → RelayStore → Effect
  unfolding poll_at
  poll_importer_status snapshot now reply s =
      poll_at snapshot now reply s (get settings.transport.importers snapshot.target_domain)

  -- The `match` on the state. The clock is read for the test and again for the action.
  unfoldable pub act : RelayQueueState → RelayPackageRecord → ℕ → ℕ → Reply → RelayStore → Effect
  act queued snapshot tested_at now reply s = schedule_record settings snapshot s
  act scheduled snapshot tested_at now reply s =
      if due_now snapshot.next_delivery_at_unix_ms tested_at
      then attempt_delivery settings snapshot now reply s
      else done s
  act blocked_by_blackout snapshot tested_at now reply s =
      if due_now snapshot.next_delivery_at_unix_ms tested_at
      then attempt_delivery settings snapshot now reply s
      else done s
  act retrying snapshot tested_at now reply s =
      if due_now snapshot.next_delivery_at_unix_ms tested_at
      then attempt_delivery settings snapshot now reply s
      else done s
  act delivered snapshot tested_at now reply s =
      if due_now snapshot.next_ack_poll_at_unix_ms tested_at
      then poll_importer_status snapshot now reply s
      else done s
  act in_delivery snapshot tested_at now reply s = done s
  act importer_acked snapshot tested_at now reply s = done s
  act failed snapshot tested_at now reply s = done s

  unfoldable pub visit_found : Option RelayPackageRecord → ℕ → ℕ → Reply → RelayStore → Effect
  visit_found none tested_at now reply s = done s
  visit_found (some snapshot) tested_at now reply s =
      act snapshot.state snapshot tested_at now reply s

  -- One round of the scheduler's loop over the keys of the index.
  unfoldable pub visit : Key → ℕ → ℕ → Reply → RelayStore → Effect
  unfolding visit_found
  visit key tested_at now reply s = visit_found (find_record s.packages key) tested_at now reply s

-- `normalize_restart_state` for one record.
unfoldable pub normalize_state :
    RelayQueueState → Option ℕ → ℕ → ℕ → RelayPackageRecord → RelayPackageRecord
normalize_state in_delivery poll_at ack_poll_millis now r = record r {
  state = retrying;
  next_delivery_at_unix_ms = some now;
}
normalize_state delivered none ack_poll_millis now r = record r {
  next_ack_poll_at_unix_ms = some (saturating_add now ack_poll_millis);
}
normalize_state delivered (some poll_at) ack_poll_millis now r = r
normalize_state queued poll_at ack_poll_millis now r = r
normalize_state scheduled poll_at ack_poll_millis now r = r
normalize_state blocked_by_blackout poll_at ack_poll_millis now r = r
normalize_state importer_acked poll_at ack_poll_millis now r = r
normalize_state retrying poll_at ack_poll_millis now r = r
normalize_state failed poll_at ack_poll_millis now r = r

abbrev pub normalize_restart : ℕ → ℕ → RelayPackageRecord → RelayPackageRecord
normalize_restart ack_poll_millis now r =
    normalize_state r.state r.next_ack_poll_at_unix_ms ack_poll_millis now r

-- The start of `run_relay`: the index file is loaded, normalized and saved.
unfoldable pub restart : ℕ → ℕ → RelayStore → RelayStore
restart ack_poll_millis now s =
    save_index (record s { packages = map (normalize_restart ack_poll_millis now) s.saved })
