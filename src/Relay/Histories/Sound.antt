-- ===== src/Relay/Histories/Sound.antt =====
-- What holds of every record in every history of the relay.
use interplanetary_asynchron.Prelude.{
  ℕ, ◌+◌, ◌≤◌, ◌≡◌, refl, sym, ◌∙◌, ◌≢◌, Bool, true, false, some, arith, if◌then◌else◌, nat_eq,
  pair_eq,
}
use interplanetary_asynchron.Config.Transport.{LinkProfileConfig}
use interplanetary_asynchron.Packages.{
  Bytes, RelayPackageEnvelope, CertifiedSummaryPackage, PackageCodec,
}
use interplanetary_asynchron.Prelude.Map.{Map, get}
use interplanetary_asynchron.Prelude.Outcome.{after}
use interplanetary_asynchron.Relay.Delivery.{RelaySettings}
use interplanetary_asynchron.Relay.Envelope.Accepted.{IsGenuine}
use interplanetary_asynchron.Relay.Scheduler.{poll_at}
use interplanetary_asynchron.Relay.Scheduler.Transitions.{
  stays, is_waiting, link_for, Becomes, schedules, waits, breaks_off, acks, delivers, is_refused,
  retries, polls_acked, polls_on, polls_refused, polls_again,
}
use interplanetary_asynchron.Relay.Store.{
  scheduled, RelayQueueState, queued, blocked_by_blackout, in_delivery, delivered, importer_acked,
  retrying, failed, Key, RelayPackageRecord, key_of, envelope_key, RelayStore, find_record,
}
use interplanetary_asynchron.Types.Scale.{domain_eq}

-- Before the first attempt, or between two.
abbrev pub is_pending : RelayQueueState → Bool
is_pending queued = true
is_pending scheduled = true
is_pending blocked_by_blackout = true
is_pending retrying = true
is_pending in_delivery = false
is_pending delivered = false
is_pending importer_acked = false
is_pending failed = false

abbrev pub last_attempt : RelayQueueState → ℕ
last_attempt state = if is_pending state then 0 else 1

waiting-pending : (state : RelayQueueState) → is_waiting state ≡ true → is_pending state ≡ true
waiting-pending queued h = refl
waiting-pending scheduled h = refl
waiting-pending blocked_by_blackout h = refl
waiting-pending retrying h = refl
waiting-pending in_delivery h = absurd (ground arith)
waiting-pending delivered h = absurd (ground arith)
waiting-pending importer_acked h = absurd (ground arith)
waiting-pending failed h = absurd (ground arith)

either_pending :
    (blocked : Bool) (state : RelayQueueState)
    → is_pending state ≡ true
    → is_pending (if blocked then blocked_by_blackout else state) ≡ true
either_pending true state h = refl
either_pending false state h = h

module _ (settings : RelaySettings) (codec : PackageCodec) where
  abbrev pub IsBounded : ℕ → RelayPackageRecord → Type 0
  IsBounded n r =
      (profile : LinkProfileConfig)
      → link_for settings r ≡ some profile
      → profile.max_attempts ≢ 0
      → r.delivery_attempts ≤ profile.max_attempts + n + last_attempt r.state

  -- The payload file of a record holds a genuine envelope of the record's name.
  pub record HasPayload (payloads : Map Key Bytes) (r : RelayPackageRecord) : Type 0 where
    pub envelope : RelayPackageEnvelope
    pub pkg : CertifiedSummaryPackage
    pub is_genuine : IsGenuine codec envelope pkg
    pub same_key : envelope_key envelope ≡ key_of r
    pub stored : get payloads (key_of r) ≡ some (codec.encode_envelope envelope)

  pub record IsKept (n : ℕ) (payloads : Map Key Bytes) (r : RelayPackageRecord) : Type 0 where
    pub bounded : IsBounded n r
    pub path : r.payload_path ≡ key_of r
    pub payload : HasPayload payloads r

  pub record IsSound (n : ℕ) (s : RelayStore) : Type 0 where
    pub saved : s.saved ≡ s.packages
    pub kept :
        (k : Key) (r : RelayPackageRecord)
        → find_record s.packages k ≡ some r
        → IsKept n s.payloads r

  module _ (n : ℕ) (r : RelayPackageRecord) (bounded : IsBounded n r) where
    pending-IsBounded :
        (c : RelayPackageRecord)
        → link_for settings c ≡ link_for settings r
        → is_pending r.state ≡ true
        → is_pending c.state ≡ true
        → c.delivery_attempts ≤ r.delivery_attempts
        → IsBounded n c
    pending-IsBounded c same before after small profile at limited =
        rw after (omega (arith, small, rw before at bounded profile (sym same ∙ at) limited))

    waiting-IsBounded :
        (c : RelayPackageRecord)
        → link_for settings c ≡ link_for settings r
        → is_waiting r.state ≡ true
        → is_pending c.state ≡ false
        → c.delivery_attempts ≤ r.delivery_attempts + 1
        → IsBounded n c
    waiting-IsBounded c same waiting tried small profile at limited =
        let pending = waiting-pending r.state waiting in
        rw tried (omega (arith, small, rw pending at bounded profile (sym same ∙ at) limited))

    delivered-IsBounded :
        (c : RelayPackageRecord)
        → link_for settings c ≡ link_for settings r
        → r.state ≡ delivered
        → is_pending c.state ≡ false
        → c.delivery_attempts ≤ r.delivery_attempts
        → IsBounded n c
    delivered-IsBounded c same at_delivered tried small profile at limited =
        rw tried (omega (arith, small, rw at_delivered at bounded profile (sym same ∙ at) limited))

    pub Becomes-IsBounded : (c : RelayPackageRecord) → Becomes settings r c → IsBounded n c
    Becomes-IsBounded c stays = bounded
    Becomes-IsBounded c (schedules blocked at is_queued) =
        pending-IsBounded c refl (rw is_queued refl) (either_pending blocked scheduled refl)
          (omega arith)
    Becomes-IsBounded c (waits until waiting) =
        pending-IsBounded c refl (waiting-pending r.state waiting) refl (omega arith)
    Becomes-IsBounded c (breaks_off waiting) = waiting-IsBounded c refl waiting refl (omega arith)
    Becomes-IsBounded c (acks now status waiting) =
        waiting-IsBounded c refl waiting refl (omega arith)
    Becomes-IsBounded c (delivers now poll_at status waiting) =
        waiting-IsBounded c refl waiting refl (omega arith)
    Becomes-IsBounded c (is_refused now error waiting) =
        waiting-IsBounded c refl waiting refl (omega arith)
    Becomes-IsBounded c (retries blocked at error profile waiting linked on) = λ other at' limited.
        rw (either_pending blocked retrying refl) (ground (arith, sym linked ∙ at'))
    Becomes-IsBounded c (polls_acked now status is_delivered) =
        delivered-IsBounded c refl is_delivered refl (omega arith)
    Becomes-IsBounded c (polls_on now poll_at status is_delivered) =
        delivered-IsBounded c refl is_delivered (rw is_delivered refl) (omega arith)
    Becomes-IsBounded c (polls_refused now error is_delivered) =
        delivered-IsBounded c refl is_delivered refl (omega arith)
    Becomes-IsBounded c (polls_again poll_at error is_delivered) =
        delivered-IsBounded c refl is_delivered (rw is_delivered refl) (omega arith)

  pub Becomes-path :
      (r c : RelayPackageRecord) → Becomes settings r c → c.payload_path ≡ r.payload_path
  Becomes-path r c stays = refl
  Becomes-path r c (schedules blocked at is_queued) = refl
  Becomes-path r c (waits until waiting) = refl
  Becomes-path r c (breaks_off waiting) = refl
  Becomes-path r c (acks now status waiting) = refl
  Becomes-path r c (delivers now poll_at status waiting) = refl
  Becomes-path r c (is_refused now error waiting) = refl
  Becomes-path r c (retries blocked at error profile waiting linked on) = refl
  Becomes-path r c (polls_acked now status is_delivered) = refl
  Becomes-path r c (polls_on now poll_at status is_delivered) = refl
  Becomes-path r c (polls_refused now error is_delivered) = refl
  Becomes-path r c (polls_again poll_at error is_delivered) = refl
