-- ===== src/Relay/Histories/Follows.antt =====
-- What every step keeps of a record, and that it keeps all of one that is done.
use interplanetary_asynchron.Prelude.{
  ℕ, ◌≡◌, refl, ap, ◌∙◌, Bool, true, false, Option, none, some, arith, nat_eq, pair_eq,
}
use interplanetary_asynchron.Relay.Delivery.{RelaySettings}
use interplanetary_asynchron.Relay.Scheduler.{poll_at, normalize_state}
use interplanetary_asynchron.Relay.Scheduler.Transitions.{
  stays, is_waiting, Becomes, schedules, waits, breaks_off, acks, delivers, is_refused, retries,
  polls_acked, polls_on, polls_refused, polls_again,
}
use interplanetary_asynchron.Relay.Store.{
  scheduled, RelayQueueState, queued, blocked_by_blackout, in_delivery, delivered, importer_acked,
  retrying, failed, RelayPackageRecord, key_of,
}
use interplanetary_asynchron.Types.Scale.{domain_eq}

abbrev pub is_final : RelayQueueState → Bool
is_final queued = false
is_final scheduled = false
is_final blocked_by_blackout = false
is_final in_delivery = false
is_final delivered = false
is_final importer_acked = true
is_final retrying = false
is_final failed = true

waiting-final : (state : RelayQueueState) → is_waiting state ≡ true → is_final state ≡ true → ⊥
waiting-final queued w h = ground arith
waiting-final scheduled w h = ground arith
waiting-final blocked_by_blackout w h = ground arith
waiting-final in_delivery w h = ground arith
waiting-final delivered w h = ground arith
waiting-final importer_acked w h = ground arith
waiting-final retrying w h = ground arith
waiting-final failed w h = ground arith

-- `c` is the same package as `r`, and `r` itself if that was final.
pub record Follows (r c : RelayPackageRecord) : Type 0 where
  pub named : key_of c ≡ key_of r
  pub summary : c.summary_hash ≡ r.summary_hash
  pub counted : c.export_count ≡ r.export_count
  pub accepted : c.relay_accepted_at_unix_ms ≡ r.relay_accepted_at_unix_ms
  pub final : is_final r.state ≡ true → c ≡ r

pub Follows-refl : (r : RelayPackageRecord) → Follows r r
Follows-refl r = record {
  named = refl;
  summary = refl;
  counted = refl;
  accepted = refl;
  final = λ _. refl;
}

pub Follows-trans : (a b c : RelayPackageRecord) → Follows a b → Follows b c → Follows a c
Follows-trans a b c f g = record {
  named = g.named ∙ f.named;
  summary = g.summary ∙ f.summary;
  counted = g.counted ∙ f.counted;
  accepted = g.accepted ∙ f.accepted;
  final = λ h. g.final (ap (λ r. is_final r.state) (f.final h) ∙ h) ∙ f.final h;
}

module _ (settings : RelaySettings) (r : RelayPackageRecord) where
  live :
      (c : RelayPackageRecord)
      → key_of c ≡ key_of r
      → c.summary_hash ≡ r.summary_hash
      → c.export_count ≡ r.export_count
      → c.relay_accepted_at_unix_ms ≡ r.relay_accepted_at_unix_ms
      → (is_final r.state ≡ true → ⊥)
      → Follows r c
  live c named summary counted accepted ongoing = record {
    named = named;
    summary = summary;
    counted = counted;
    accepted = accepted;
    final = λ h. absurd (ongoing h);
  }

  at_not_final :
      (state : RelayQueueState)
      → r.state ≡ state
      → is_final state ≡ false
      → is_final r.state ≡ true
      → ⊥
  at_not_final state at other h = ground (arith, at)

  pub Becomes-Follows : (c : RelayPackageRecord) → Becomes settings r c → Follows r c
  Becomes-Follows c stays = Follows-refl r
  Becomes-Follows c (schedules blocked at is_queued) =
      live c refl refl refl refl (at_not_final queued is_queued refl)
  Becomes-Follows c (waits until waiting) =
      live c refl refl refl refl (waiting-final r.state waiting)
  Becomes-Follows c (breaks_off waiting) =
      live c refl refl refl refl (waiting-final r.state waiting)
  Becomes-Follows c (acks now status waiting) =
      live c refl refl refl refl (waiting-final r.state waiting)
  Becomes-Follows c (delivers now poll_at status waiting) =
      live c refl refl refl refl (waiting-final r.state waiting)
  Becomes-Follows c (is_refused now error waiting) =
      live c refl refl refl refl (waiting-final r.state waiting)
  Becomes-Follows c (retries blocked at error profile waiting linked on) =
      live c refl refl refl refl (waiting-final r.state waiting)
  Becomes-Follows c (polls_acked now status is_delivered) =
      live c refl refl refl refl (at_not_final delivered is_delivered refl)
  Becomes-Follows c (polls_on now poll_at status is_delivered) =
      live c refl refl refl refl (at_not_final delivered is_delivered refl)
  Becomes-Follows c (polls_refused now error is_delivered) =
      live c refl refl refl refl (at_not_final delivered is_delivered refl)
  Becomes-Follows c (polls_again poll_at error is_delivered) =
      live c refl refl refl refl (at_not_final delivered is_delivered refl)

  pub normalize_state-Follows :
      (state : RelayQueueState) (poll_at : Option ℕ) (ack_poll_millis now : ℕ)
      → r.state ≡ state
      → Follows r (normalize_state state poll_at ack_poll_millis now r)
  unfolding normalize_state
  normalize_state-Follows in_delivery poll_at ack_poll_millis now at =
      live _ refl refl refl refl (at_not_final in_delivery at refl)
  normalize_state-Follows delivered none ack_poll_millis now at =
      live _ refl refl refl refl (at_not_final delivered at refl)
  normalize_state-Follows delivered (some poll_at) ack_poll_millis now at = Follows-refl r
  normalize_state-Follows queued poll_at ack_poll_millis now at = Follows-refl r
  normalize_state-Follows scheduled poll_at ack_poll_millis now at = Follows-refl r
  normalize_state-Follows blocked_by_blackout poll_at ack_poll_millis now at = Follows-refl r
  normalize_state-Follows importer_acked poll_at ack_poll_millis now at = Follows-refl r
  normalize_state-Follows retrying poll_at ack_poll_millis now at = Follows-refl r
  normalize_state-Follows failed poll_at ack_poll_millis now at = Follows-refl r
