-- ===== src/Relay/Records.antt =====
-- services/relay/src/lib.rs: the records that the scheduler writes over the stored ones, and the delay
-- of a retry.
use interplanetary_asynchron.Prelude.{
  ℕ, ◌+◌, ◌-◌, ◌*◌, ◌^◌, min, max, Bool, true, ◌||◌, Option, none, some, if◌then◌else◌, nat_eq,
  pair_eq,
}
use interplanetary_asynchron.Config.Transport.{LinkProfileConfig, link}
use interplanetary_asynchron.Packages.{ImporterPackageStatusView}
use interplanetary_asynchron.Relay.Store.{
  scheduled, blocked_by_blackout, in_delivery, delivered, importer_acked, retrying, failed,
  DeliveryError, RelayPackageRecord,
}
use interplanetary_asynchron.Types.Scale.{domain_eq, u32_max, u64_max}

abbrev pub saturating_add : ℕ → ℕ → ℕ
saturating_add a b = min (a + b) u64_max

abbrev pub saturating_mul : ℕ → ℕ → ℕ
saturating_mul a b = min (a * b) u64_max

abbrev pub get_or_insert : Option ℕ → ℕ → Option ℕ
get_or_insert none n = some n
get_or_insert (some m) n = some m

-- The records that the actions write, over the stored one.
abbrev pub to_scheduled : Bool → ℕ → RelayPackageRecord → RelayPackageRecord
to_scheduled blocked at r = record r {
  state = if blocked then blocked_by_blackout else scheduled;
  ever_blocked_by_blackout = r.ever_blocked_by_blackout || blocked;
  next_delivery_at_unix_ms = some at;
  last_delivery_error = none;
}

abbrev pub to_blocked : ℕ → RelayPackageRecord → RelayPackageRecord
to_blocked until r = record r {
  state = blocked_by_blackout;
  ever_blocked_by_blackout = true;
  next_delivery_at_unix_ms = some until;
}

abbrev pub to_in_delivery : RelayPackageRecord → RelayPackageRecord
to_in_delivery r = record r {
  state = in_delivery;
  delivery_attempts = min (r.delivery_attempts + 1) u32_max;
  last_delivery_error = none;
}

abbrev pub to_acked_on_delivery :
    ℕ → ImporterPackageStatusView → RelayPackageRecord → RelayPackageRecord
to_acked_on_delivery now status r = record r {
  state = importer_acked;
  delivered_at_unix_ms = get_or_insert r.delivered_at_unix_ms now;
  completed_at_unix_ms = some now;
  importer_state = some status.state;
  importer_reason = status.reason;
  last_importer_status_at_unix_ms = some now;
  next_ack_poll_at_unix_ms = none;
}

abbrev pub to_delivered :
    ℕ → ℕ → ImporterPackageStatusView → RelayPackageRecord → RelayPackageRecord
to_delivered now poll_at status r = record r {
  state = delivered;
  delivered_at_unix_ms = get_or_insert r.delivered_at_unix_ms now;
  importer_state = some status.state;
  importer_reason = status.reason;
  last_importer_status_at_unix_ms = some now;
  next_ack_poll_at_unix_ms = some poll_at;
  next_delivery_at_unix_ms = none;
}

abbrev pub to_failed : ℕ → DeliveryError → RelayPackageRecord → RelayPackageRecord
to_failed now error r = record r {
  state = failed;
  last_delivery_error = some error;
  completed_at_unix_ms = some now;
  next_delivery_at_unix_ms = none;
  next_ack_poll_at_unix_ms = none;
}

abbrev pub to_retry : Bool → ℕ → DeliveryError → RelayPackageRecord → RelayPackageRecord
to_retry blocked at error r = record r {
  state = if blocked then blocked_by_blackout else retrying;
  last_delivery_error = some error;
  next_delivery_at_unix_ms = some at;
  next_ack_poll_at_unix_ms = none;
}

abbrev pub to_acked_on_poll :
    ℕ → ImporterPackageStatusView → RelayPackageRecord → RelayPackageRecord
to_acked_on_poll now status r = record r {
  state = importer_acked;
  importer_state = some status.state;
  importer_reason = status.reason;
  last_importer_status_at_unix_ms = some now;
  completed_at_unix_ms = some now;
  next_ack_poll_at_unix_ms = none;
}

abbrev pub to_polled : ℕ → ℕ → ImporterPackageStatusView → RelayPackageRecord → RelayPackageRecord
to_polled now poll_at status r = record r {
  importer_state = some status.state;
  importer_reason = status.reason;
  last_importer_status_at_unix_ms = some now;
  next_ack_poll_at_unix_ms = some poll_at;
}

abbrev pub to_poll_failed : ℕ → DeliveryError → RelayPackageRecord → RelayPackageRecord
to_poll_failed now error r = record r {
  state = failed;
  last_delivery_error = some error;
  completed_at_unix_ms = some now;
  next_ack_poll_at_unix_ms = none;
}

abbrev pub to_poll_again : ℕ → DeliveryError → RelayPackageRecord → RelayPackageRecord
to_poll_again poll_at error r = record r {
  last_delivery_error = some error;
  next_ack_poll_at_unix_ms = some poll_at;
}

-- The delay before the next attempt: `1 << failures` up to 16 doublings, of the snapshot's attempts.
unfoldable pub retry_delay_seconds : LinkProfileConfig → ℕ → ℕ
retry_delay_seconds link attempts =
    let failures = max attempts 1 - 1 in
    min (saturating_mul link.initial_retry_delay_seconds (2 ^ min failures 16))
      link.max_retry_delay_seconds
