-- ===== src/Relay/Scheduler/Visits.antt =====
-- A visit leads a record on by one of the transitions.
use interplanetary_asynchron.Prelude.{
  ℕ, ◌≡◌, refl, inl, inr, true, false, not, ◌&&◌, ◌||◌, Option, none, some, ltb, leb, nat_beq,
  if◌then◌else◌, Bool-cases, nat_eq, pair_eq,
}
use interplanetary_asynchron.Config.Transport.{ImporterTransportConfig, LinkProfileConfig}
use interplanetary_asynchron.Packages.{Bytes, is_terminal, ImporterPackageStatusView}
use interplanetary_asynchron.Prelude.Index.{find_by-key}
use interplanetary_asynchron.Prelude.Outcome.{Outcome, ok, err}
use interplanetary_asynchron.Relay.Blackout.{RelayError}
use interplanetary_asynchron.Relay.Delivery.{
  Reply, response, unreachable, RelaySettings, update_record, schedule_at, retry_at, schedule_on,
  schedule_record, schedule_retry, take_receipt, take_reply, send, deliver, deliver_after,
  deliver_unless_blocked, attempt_on, attempt_delivery,
}
use interplanetary_asynchron.Relay.Records.{
  to_blocked, to_in_delivery, to_acked_on_delivery, to_failed, to_acked_on_poll,
}
use interplanetary_asynchron.Relay.Scheduler.{
  due_now, take_status, take_poll, poll_at, poll_importer_status, act, visit_found, visit,
}
use interplanetary_asynchron.Relay.Scheduler.Transitions.{
  stays, is_waiting, gives_up, link_for, Becomes, schedules, waits, breaks_off, acks, delivers,
  is_refused, retries, polls_acked, polls_on, polls_refused, polls_again, Leads,
}
use interplanetary_asynchron.Relay.Scheduler.Updates.{Holds, Holds-refl, Holds-update}
use interplanetary_asynchron.Relay.Store.{
  scheduled, RelayQueueState, queued, blocked_by_blackout, in_delivery, delivered, importer_acked,
  retrying, failed, Key, DeliveryError, importer_returned, status_returned, transient_status,
  polling_status, request_failed, polling_failed, RelayPackageRecord, key_of, RelayStore,
  find_record,
}
use interplanetary_asynchron.Types.Scale.{domain_eq}

module _ (settings : RelaySettings) (s : RelayStore) (r : RelayPackageRecord)
    (found : find_record s.packages (key_of r) ≡ some r) where
  rests : Leads settings s r s
  rests = record { current = r; holds = Holds-refl s r found; becomes = stays }

  once :
      (f : RelayPackageRecord → RelayPackageRecord)
      → key_of (f r) ≡ key_of r
      → Becomes settings r (f r)
      → Leads settings s r (update_record r f s)
  once f keeps becomes = record {
    current = f r;
    holds = Holds-update s r r s f keeps (Holds-refl s r found);
    becomes = becomes;
  }

  schedule_at-Leads :
      (due : ℕ) (o : Outcome RelayError ℕ)
      → r.state ≡ queued
      → Leads settings s r (schedule_at r due s o).0
  unfolding schedule_at
  schedule_at-Leads due (err e) at = rests
  schedule_at-Leads due (ok time) at = once _ refl (schedules (not (nat_beq time due)) time at)

  schedule_on-Leads :
      r.state ≡ queued
      → (o : Option LinkProfileConfig) → Leads settings s r (schedule_on settings r s o).0
  unfolding schedule_on
  schedule_on-Leads at none = rests
  schedule_on-Leads at (some profile) = schedule_at-Leads _ _ at

  module _ (waiting : is_waiting r.state ≡ true) where
    attempted-Holds : Holds s r (to_in_delivery r) (update_record r to_in_delivery s)
    attempted-Holds = Holds-update s r r s to_in_delivery refl (Holds-refl s r found)

    then_ :
        (f : RelayPackageRecord → RelayPackageRecord)
        → key_of (f (to_in_delivery r)) ≡ key_of (to_in_delivery r)
        → Becomes settings r (f (to_in_delivery r))
        → Leads settings s r (update_record r f (update_record r to_in_delivery s))
    then_ f keeps becomes = record {
      current = f (to_in_delivery r);
      holds =
          Holds-update s r (to_in_delivery r) (update_record r to_in_delivery s) f keeps
            attempted-Holds;
      becomes = becomes;
    }

    broken_off : Leads settings s r (update_record r to_in_delivery s)
    broken_off = record {
      current = to_in_delivery r;
      holds = attempted-Holds;
      becomes = breaks_off waiting;
    }

    module _ (now : ℕ) (profile : LinkProfileConfig)
        (linked : link_for settings r ≡ some profile) where
      retry_at-Leads :
          (due : ℕ) (error : DeliveryError) (o : Outcome RelayError ℕ)
          → gives_up profile r.delivery_attempts ≡ false
          → Leads settings s r (retry_at r due error (update_record r to_in_delivery s) o).0
      unfolding retry_at
      retry_at-Leads due error (err e) on = broken_off
      retry_at-Leads due error (ok at) on =
          then_ _ refl (retries (not (nat_beq at due)) at error profile waiting linked on)

      schedule_retry-Leads :
          (error : DeliveryError)
          → Leads settings s r
              (schedule_retry settings r now profile error (update_record r to_in_delivery s)).0
      unfolding schedule_retry
      schedule_retry-Leads error = elim (Bool-cases (gives_up profile r.delivery_attempts)) [
        | inl over ↦ rw over (then_ (to_failed now error) refl (is_refused now error waiting))
        | inr on ↦ rw on (retry_at-Leads _ error _ on)
      ]

      take_receipt-Leads :
          (receipt : Option ImporterPackageStatusView)
          → Leads settings s r
              (take_receipt settings r now receipt (update_record r to_in_delivery s)).0
      unfolding take_receipt
      take_receipt-Leads none = broken_off
      take_receipt-Leads (some status) = elim (Bool-cases (is_terminal status.state)) [
        | inl y ↦ rw y (then_ (to_acked_on_delivery now status) refl (acks now status waiting))
        | inr n ↦ rw n (then_ _ refl (delivers now _ status waiting))
      ]

      take_reply-Leads :
          (reply : Reply)
          → Leads settings s r
              (take_reply settings r now profile reply (update_record r to_in_delivery s)).0
      unfolding take_reply
      take_reply-Leads (unreachable text) = schedule_retry-Leads (request_failed text)
      take_reply-Leads (response status receipt text) =
          elim (Bool-cases (nat_beq status 200 || nat_beq status 202)) [
            | inl y ↦ rw y (take_receipt-Leads receipt)
            | inr n ↦ elim (Bool-cases (leb 400 status && ltb status 500)) [
              | inl refused ↦
                  rw (n, refused)
                    (then_ _ refl (is_refused now (importer_returned status text) waiting))
              | inr transient ↦ rw (n, transient) (schedule_retry-Leads (transient_status status))
            ]
          ]

      send-Leads :
          (reply : Reply) (payload : Option Bytes) (importer : Option ImporterTransportConfig)
          → Leads settings s r
              (send settings r now profile reply
                (update_record r to_in_delivery s)
                payload
                importer).0
      unfolding send
      send-Leads reply none importer = broken_off
      send-Leads reply (some payload) none = broken_off
      send-Leads reply (some payload) (some importer) = take_reply-Leads reply

      deliver-Leads :
          (reply : Reply) → Leads settings s r (deliver settings r now profile reply s).0
      unfolding deliver
      deliver-Leads reply = send-Leads reply _ _

      deliver_after-Leads :
          (reply : Reply) (o : Outcome RelayError ℕ)
          → Leads settings s r (deliver_after settings r now profile reply s o).0
      unfolding deliver_after
      deliver_after-Leads reply (err e) = rests
      deliver_after-Leads reply (ok until) = elim (Bool-cases (ltb now until)) [
        | inl y ↦ rw y (once (to_blocked until) refl (waits until waiting))
        | inr n ↦ rw n (deliver-Leads reply)
      ]

      deliver_unless_blocked-Leads :
          (reply : Reply) (at : Option ℕ)
          → Leads settings s r (deliver_unless_blocked settings r now profile reply at s).0
      unfolding deliver_unless_blocked
      deliver_unless_blocked-Leads reply none = deliver-Leads reply
      deliver_unless_blocked-Leads reply (some at) = deliver_after-Leads reply _

    attempt_on-Leads :
        (now : ℕ) (reply : Reply) (o : Option LinkProfileConfig)
        → link_for settings r ≡ o
        → Leads settings s r (attempt_on settings r now reply s o).0
    unfolding attempt_on
    attempt_on-Leads now reply none linked = rests
    attempt_on-Leads now reply (some profile) linked =
        deliver_unless_blocked-Leads now profile linked reply _

    due-Leads :
        (tested_at now : ℕ) (reply : Reply)
        → Leads settings s r
            (if due_now r.next_delivery_at_unix_ms tested_at
              then attempt_delivery settings r now reply s
              else (s, none)).0
    unfolding attempt_delivery
    due-Leads tested_at now reply =
        elim (Bool-cases (due_now r.next_delivery_at_unix_ms tested_at)) [
          | inl y ↦ rw y (attempt_on-Leads now reply _ refl)
          | inr n ↦ rw n rests
        ]

  module _ (is_delivered : r.state ≡ delivered) (now : ℕ) where
    take_status-Leads :
        (view : Option ImporterPackageStatusView)
        → Leads settings s r (take_status settings r now view s).0
    unfolding take_status
    take_status-Leads none = rests
    take_status-Leads (some status) = elim (Bool-cases (is_terminal status.state)) [
      | inl y ↦ rw y (once (to_acked_on_poll now status) refl (polls_acked now status is_delivered))
      | inr n ↦ rw n (once _ refl (polls_on now _ status is_delivered))
    ]

    poll_at-Leads :
        (reply : Reply) (importer : Option ImporterTransportConfig)
        → Leads settings s r (poll_at settings r now reply s importer).0
    unfolding poll_at take_poll
    poll_at-Leads reply none = rests
    poll_at-Leads (unreachable text) (some importer) =
        once _ refl (polls_again _ (polling_failed text) is_delivered)
    poll_at-Leads (response status view text) (some importer) =
        elim (Bool-cases (leb 200 status && ltb status 300)) [
          | inl y ↦ rw y (take_status-Leads view)
          | inr n ↦ elim (Bool-cases (leb 400 status && ltb status 500)) [
            | inl refused ↦
                rw (n, refused)
                  (once _ refl (polls_refused now (status_returned status text) is_delivered))
            | inr other ↦
                rw (n, other) (once _ refl (polls_again _ (polling_status status) is_delivered))
          ]
        ]

    polled-Leads :
        (tested_at : ℕ) (reply : Reply)
        → Leads settings s r
            (if due_now r.next_ack_poll_at_unix_ms tested_at
              then poll_importer_status settings r now reply s
              else (s, none)).0
    unfolding poll_importer_status
    polled-Leads tested_at reply =
        elim (Bool-cases (due_now r.next_ack_poll_at_unix_ms tested_at)) [
          | inl y ↦ rw y (poll_at-Leads reply _)
          | inr n ↦ rw n rests
        ]

  act-Leads :
      (state : RelayQueueState) (tested_at now : ℕ) (reply : Reply)
      → r.state ≡ state
      → Leads settings s r (act settings state r tested_at now reply s).0
  unfolding act schedule_record schedule_on
  act-Leads queued tested_at now reply at = schedule_on-Leads at _
  act-Leads scheduled tested_at now reply at = due-Leads (rw at refl) tested_at now reply
  act-Leads blocked_by_blackout tested_at now reply at = due-Leads (rw at refl) tested_at now reply
  act-Leads retrying tested_at now reply at = due-Leads (rw at refl) tested_at now reply
  act-Leads delivered tested_at now reply at = polled-Leads at now tested_at reply
  act-Leads in_delivery tested_at now reply at = rests
  act-Leads importer_acked tested_at now reply at = rests
  act-Leads failed tested_at now reply at = rests

-- One visit: the record under the key leads on, and where there is none nothing happens.
pub visit-Leads :
    (settings : RelaySettings) (s : RelayStore) (key : Key) (r : RelayPackageRecord)
    (tested_at now : ℕ) (reply : Reply)
    → find_record s.packages key ≡ some r
    → Leads settings s r (visit settings key tested_at now reply s).0
unfolding visit visit_found
visit-Leads settings s key r tested_at now reply found =
    let at = find_by-key key_of s.packages key r found in
    rw found (act-Leads settings s r (rw at found) r.state tested_at now reply refl)

pub visit-none :
    (settings : RelaySettings) (s : RelayStore) (key : Key) (tested_at now : ℕ) (reply : Reply)
    → find_record s.packages key ≡ none
    → (visit settings key tested_at now reply s).0 ≡ s
unfolding visit visit_found
visit-none settings s key tested_at now reply missing = rw missing refl
