-- ===== src/Relay/Scheduler/Slots.antt =====
-- When the next attempt is due.
use interplanetary_asynchron.Prelude.{
  ℕ, ◌+◌, ◌-◌, ◌*◌, ◌/◌, ◌≤◌, min, ◌≡◌, refl, ap, ◌∙◌, Bool, true, false, not, some, arith, nat_beq,
  if◌then◌else◌, nat_eq, pair_eq,
}
use interplanetary_asynchron.Config.Transport.{DateTime, LinkProfileConfig}
use interplanetary_asynchron.Prelude.Index.{find_by-key}
use interplanetary_asynchron.Relay.Blackout.{nanos_per_milli, i64_max, instant}
use interplanetary_asynchron.Relay.Blackout.Least.{IsNext, next_delivery_after-least}
use interplanetary_asynchron.Relay.Delivery.{
  Reply, RelaySettings, schedule_at, schedule_on, schedule_record,
}
use interplanetary_asynchron.Relay.Records.{to_scheduled}
use interplanetary_asynchron.Relay.Scheduler.{act, visit_found, visit}
use interplanetary_asynchron.Relay.Scheduler.Transitions.{is_waiting, gives_up, link_for}
use interplanetary_asynchron.Relay.Scheduler.Updates.{Holds-refl, Holds-update}
use interplanetary_asynchron.Relay.Store.{
  scheduled, RelayQueueState, queued, blocked_by_blackout, Key, RelayPackageRecord, key_of,
  RelayStore, find_record,
}
use interplanetary_asynchron.Types.Scale.{domain_eq, u64_max}

-- The record under the key of `r` waits for the first clear instant from `due` on.
pub record Waits (settings : RelaySettings) (profile : LinkProfileConfig) (due : ℕ)
    (r : RelayPackageRecord) (t : RelayStore) : Type 0 where
  pub current : RelayPackageRecord
  pub found : find_record t.packages (key_of r) ≡ some current
  pub waiting : is_waiting current.state ≡ true
  pub slot : DateTime
  pub is_next : IsNext profile.blackout_windows (instant settings.chrono due) slot
  pub scheduled_at :
      current.next_delivery_at_unix_ms
      ≡ some ((slot - settings.chrono.unix_epoch) / nanos_per_milli)

either_waits :
    (blocked : Bool) (state : RelayQueueState)
    → is_waiting state ≡ true
    → is_waiting (if blocked then blocked_by_blackout else state) ≡ true
either_waits true state h = refl
either_waits false state h = h

act-queued :
    (settings : RelaySettings) (state : RelayQueueState) (r : RelayPackageRecord)
    (tested_at now : ℕ) (reply : Reply) (s : RelayStore)
    → state ≡ queued
    → act settings state r tested_at now reply s ≡ schedule_record settings r s
unfolding act
act-queued settings state r tested_at now reply s at = rw at refl

-- The first visit to a package that was accepted schedules it for the first instant from the link's
-- delay after its acceptance on that no blackout window of the link covers, if the calendar holds the
-- time after the delay.
pub visit-schedules :
    (settings : RelaySettings) (s : RelayStore) (key : Key) (r : RelayPackageRecord)
    (tested_at now : ℕ) (reply : Reply) (profile : LinkProfileConfig) (due : ℕ)
    → find_record s.packages key ≡ some r
    → r.state ≡ queued
    → link_for settings r ≡ some profile
    → due ≡ r.relay_accepted_at_unix_ms + profile.base_one_way_delay_seconds * 1000
    → due ≤ i64_max
    → due ≤ settings.chrono.max_millis
    → Waits settings profile due r (visit settings key tested_at now reply s).0
unfolding visit visit_found schedule_record schedule_on schedule_at
visit-schedules settings s key r tested_at now reply profile due found at linked is_due fits
      in_range =
    let (slot, next, computed) =
      next_delivery_after-least settings.chrono profile due fits in_range in
    let here = ap (find_record s.packages) (find_by-key key_of s.packages key r found) ∙ found in
    let millis = (slot - settings.chrono.unix_epoch) / nanos_per_milli in
    let blocked = not (nat_beq millis due) in
    let exact : min
          (r.relay_accepted_at_unix_ms + min (profile.base_one_way_delay_seconds * 1000) u64_max)
          u64_max
        ≡ due =
      omega (arith, is_due, fits) in
    let holds = Holds-update s r r s (to_scheduled blocked millis) refl (Holds-refl s r here) in
    rw (found, act-queued settings r.state r tested_at now reply s at)
      (rw (linked, exact, computed)
        (record {
          current = to_scheduled blocked millis r;
          found = holds.here;
          waiting = either_waits blocked scheduled refl;
          slot = slot;
          is_next = next;
          scheduled_at = refl;
        }))

module _ (settings : RelaySettings) (s : RelayStore) (r : RelayPackageRecord) (now : ℕ)
    (profile : LinkProfileConfig) (found : find_record s.packages (key_of r) ≡ some r)
    (ordered : profile.initial_retry_delay_seconds ≤ profile.max_retry_delay_seconds)
    (fits : now + profile.max_retry_delay_seconds * 1000 ≤ i64_max)
    (in_range : now + profile.max_retry_delay_seconds * 1000 ≤ settings.chrono.max_millis)
    (goes_on : gives_up profile r.delivery_attempts ≡ false) where
  -- The result of a retry.
  abbrev pub Retries : RelayStore → Type 0
  Retries t =
      (due : ℕ) × (now + profile.initial_retry_delay_seconds * 1000 ≤ due)
      × (due ≤ now + profile.max_retry_delay_seconds * 1000)
      × Waits settings profile due r t
