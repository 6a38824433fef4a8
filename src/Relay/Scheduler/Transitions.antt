-- ===== src/Relay/Scheduler/Transitions.antt =====
-- What one visit of the scheduler can make of a record.
use interplanetary_asynchron.Prelude.{
  ℕ, ◌≡◌, Bool, true, false, not, ◌&&◌, Option, some, leb, nat_beq, nat_eq, pair_eq,
}
use interplanetary_asynchron.Config.Transport.{LinkProfileConfig, link}
use interplanetary_asynchron.Packages.{ImporterPackageStatusView}
use interplanetary_asynchron.Relay.Delivery.{RelaySettings}
use interplanetary_asynchron.Relay.Records.{
  to_scheduled, to_blocked, to_in_delivery, to_acked_on_delivery, to_delivered, to_failed, to_retry,
  to_acked_on_poll, to_polled, to_poll_failed, to_poll_again,
}
use interplanetary_asynchron.Relay.Scheduler.Updates.{Holds}
use interplanetary_asynchron.Relay.Store.{
  scheduled, RelayQueueState, queued, blocked_by_blackout, in_delivery, delivered, importer_acked,
  retrying, failed, DeliveryError, RelayPackageRecord, RelayStore,
}
use interplanetary_asynchron.Types.Scale.{domain_eq}

abbrev pub is_waiting : RelayQueueState → Bool
is_waiting queued = false
is_waiting scheduled = true
is_waiting blocked_by_blackout = true
is_waiting in_delivery = false
is_waiting delivered = false
is_waiting importer_acked = false
is_waiting retrying = true
is_waiting failed = false

-- Whether a failed attempt is the last one, by the attempts before it.
abbrev pub gives_up : LinkProfileConfig → ℕ → Bool
gives_up profile attempts =
    not (nat_beq profile.max_attempts 0) && leb profile.max_attempts attempts

abbrev pub link_for : RelaySettings → RelayPackageRecord → Option LinkProfileConfig
link_for settings r = link settings.transport r.source_domain r.target_domain

-- The record before and after.
pub data Becomes (settings : RelaySettings) (r : RelayPackageRecord)
    : RelayPackageRecord → Type 0 where
  stays : Becomes settings r r
  schedules :
      (blocked : Bool) (at : ℕ) → r.state ≡ queued → Becomes settings r (to_scheduled blocked at r)
  waits : (until : ℕ) → is_waiting r.state ≡ true → Becomes settings r (to_blocked until r)
  breaks_off : is_waiting r.state ≡ true → Becomes settings r (to_in_delivery r)
  acks :
      (now : ℕ) (status : ImporterPackageStatusView)
      → is_waiting r.state ≡ true
      → Becomes settings r (to_acked_on_delivery now status (to_in_delivery r))
  delivers :
      (now poll_at : ℕ) (status : ImporterPackageStatusView)
      → is_waiting r.state ≡ true
      → Becomes settings r (to_delivered now poll_at status (to_in_delivery r))
  is_refused :
      (now : ℕ) (error : DeliveryError)
      → is_waiting r.state ≡ true
      → Becomes settings r (to_failed now error (to_in_delivery r))
  retries :
      (blocked : Bool) (at : ℕ) (error : DeliveryError) (profile : LinkProfileConfig)
      → is_waiting r.state ≡ true
      → link_for settings r ≡ some profile
      → gives_up profile r.delivery_attempts ≡ false
      → Becomes settings r (to_retry blocked at error (to_in_delivery r))
  polls_acked :
      (now : ℕ) (status : ImporterPackageStatusView)
      → r.state ≡ delivered
      → Becomes settings r (to_acked_on_poll now status r)
  polls_on :
      (now poll_at : ℕ) (status : ImporterPackageStatusView)
      → r.state ≡ delivered
      → Becomes settings r (to_polled now poll_at status r)
  polls_refused :
      (now : ℕ) (error : DeliveryError)
      → r.state ≡ delivered
      → Becomes settings r (to_poll_failed now error r)
  polls_again :
      (poll_at : ℕ) (error : DeliveryError)
      → r.state ≡ delivered
      → Becomes settings r (to_poll_again poll_at error r)

-- The store after an action on `r` that started from `s`.
pub record Leads (settings : RelaySettings) (s : RelayStore) (r : RelayPackageRecord)
    (t : RelayStore) : Type 0 where
  pub current : RelayPackageRecord
  pub holds : Holds s r current t
  pub becomes : Becomes settings r current
