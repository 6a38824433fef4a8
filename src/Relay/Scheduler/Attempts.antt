-- ===== src/Relay/Scheduler/Attempts.antt =====
-- The way from a visit to the importer's reply.
use interplanetary_asynchron.Prelude.{
  ℕ, ◌≤◌, ◌≡◌, refl, ap, ◌∙◌, true, false, Option, none, some, arith, ltb, if◌then◌else◌, nat_eq,
  pair_eq,
}
use interplanetary_asynchron.Config.Transport.{ImporterTransportConfig, LinkProfileConfig}
use interplanetary_asynchron.Packages.{Bytes}
use interplanetary_asynchron.Prelude.Index.{find_by-key}
use interplanetary_asynchron.Prelude.Map.{get}
use interplanetary_asynchron.Prelude.Outcome.{ok}
use interplanetary_asynchron.Relay.Blackout.{next_delivery_after}
use interplanetary_asynchron.Relay.Delivery.{
  Reply, RelaySettings, update_record, take_reply, send, deliver, deliver_after,
  deliver_unless_blocked, attempt_on, attempt_delivery,
}
use interplanetary_asynchron.Relay.Records.{to_in_delivery}
use interplanetary_asynchron.Relay.Scheduler.{due_now, act, visit_found, visit}
use interplanetary_asynchron.Relay.Scheduler.Transitions.{is_waiting, link_for}
use interplanetary_asynchron.Relay.Scheduler.Updates.{Holds, Holds-refl, Holds-update}
use interplanetary_asynchron.Relay.Store.{
  scheduled, RelayQueueState, queued, blocked_by_blackout, in_delivery, delivered, importer_acked,
  retrying, failed, Key, RelayPackageRecord, key_of, RelayStore, find_record,
}
use interplanetary_asynchron.Types.Scale.{domain_eq}

module _ (settings : RelaySettings) (s : RelayStore) (r : RelayPackageRecord)
    (found : find_record s.packages (key_of r) ≡ some r) where
  pub attempted : Holds s r (to_in_delivery r) (update_record r to_in_delivery s)
  attempted = Holds-update s r r s to_in_delivery refl (Holds-refl s r found)

  -- What a second update leaves.
  pub rewritten :
      (f : RelayPackageRecord → RelayPackageRecord)
      → key_of (f (to_in_delivery r)) ≡ key_of (to_in_delivery r)
      → Holds s r (f (to_in_delivery r)) (update_record r f (update_record r to_in_delivery s))
  rewritten f keeps =
      Holds-update s r (to_in_delivery r) (update_record r to_in_delivery s) f keeps attempted

  deliver-reply :
      (now : ℕ) (profile : LinkProfileConfig) (reply : Reply) (payload : Bytes)
      (importer : ImporterTransportConfig)
      → get s.payloads (key_of r) ≡ some payload
      → get settings.transport.importers r.target_domain ≡ some importer
      → deliver settings r now profile reply s
        ≡ take_reply settings r now profile reply (update_record r to_in_delivery s)
  unfolding deliver send
  deliver-reply now profile reply payload importer paid addressed =
      let same = ap (λ p. get p (key_of r)) attempted.payloads in rw (same, paid, addressed) refl

act-waiting :
    (settings : RelaySettings) (state : RelayQueueState) (r : RelayPackageRecord)
    (tested_at now : ℕ) (reply : Reply) (s : RelayStore)
    → is_waiting state ≡ true
    → act settings state r tested_at now reply s ≡ (
        if due_now r.next_delivery_at_unix_ms tested_at
        then attempt_delivery settings r now reply s
        else (s, none))
unfolding act
act-waiting settings scheduled r tested_at now reply s h = refl
act-waiting settings blocked_by_blackout r tested_at now reply s h = refl
act-waiting settings retrying r tested_at now reply s h = refl
act-waiting settings queued r tested_at now reply s h = absurd (ground arith)
act-waiting settings in_delivery r tested_at now reply s h = absurd (ground arith)
act-waiting settings delivered r tested_at now reply s h = absurd (ground arith)
act-waiting settings importer_acked r tested_at now reply s h = absurd (ground arith)
act-waiting settings failed r tested_at now reply s h = absurd (ground arith)

unblocked :
    (settings : RelaySettings) (r : RelayPackageRecord) (now : ℕ) (profile : LinkProfileConfig)
    (reply : Reply) (s : RelayStore) (at until : ℕ) (slot : Option ℕ)
    → slot ≡ some at
    → next_delivery_after settings.chrono profile at ≡ ok until
    → until ≤ now
    → deliver_unless_blocked settings r now profile reply slot s
      ≡ deliver settings r now profile reply s
unfolding deliver_unless_blocked deliver_after
unblocked settings r now profile reply s at until slot is_at clear passed =
    let passes : ltb now until ≡ false = ground arith in rw (is_at, clear, passes) refl

-- A visit to a record that waits, at a time that is not before its slot and the end of the blackout
-- over it, comes down to the importer's reply, with the attempt counted.
pub visit-reply :
    (settings : RelaySettings) (s : RelayStore) (key : Key) (r : RelayPackageRecord)
    (tested_at now : ℕ) (reply : Reply) (profile : LinkProfileConfig) (at until : ℕ)
    (payload : Bytes) (importer : ImporterTransportConfig)
    → find_record s.packages key ≡ some r
    → is_waiting r.state ≡ true
    → r.next_delivery_at_unix_ms ≡ some at
    → at ≤ tested_at
    → link_for settings r ≡ some profile
    → next_delivery_after settings.chrono profile at ≡ ok until
    → until ≤ now
    → get s.payloads key ≡ some payload
    → get settings.transport.importers r.target_domain ≡ some importer
    → visit settings key tested_at now reply s
      ≡ take_reply settings r now profile reply (update_record r to_in_delivery s)
unfolding visit visit_found attempt_delivery attempt_on
visit-reply settings s key r tested_at now reply profile at until payload importer found waiting
      scheduled_at due linked clear passed paid addressed =
    let is_key = find_by-key key_of s.packages key r found in
    let due_then : due_now r.next_delivery_at_unix_ms tested_at ≡ true =
      ap (λ o. due_now o tested_at) scheduled_at ∙ ground arith in
    rw (found, act-waiting settings r.state r tested_at now reply s waiting, due_then)
      (rw (linked, unblocked settings r now profile reply s at until _ scheduled_at clear passed)
        (deliver-reply settings s r (ap (find_record s.packages) is_key ∙ found) now profile reply
          payload importer (ap (get s.payloads) is_key ∙ paid) addressed))
