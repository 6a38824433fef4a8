-- ===== src/Examples/Relay.antt =====
-- A package in the relay: submitted, held back by a blackout, and tried twice.
use interplanetary_asynchron.Config.Transport.{link, find_link}
use interplanetary_asynchron.Examples.Codec.{codec}
use interplanetary_asynchron.Examples.Packages.{envelope, pkg, body, body_valid}
use interplanetary_asynchron.Examples.Settings.{transport, chrono, link_between, importer_at}
use interplanetary_asynchron.Packages.{
  RelayPackageEnvelope, ImporterPackageStatusView, acked_verified,
}
use interplanetary_asynchron.Config.Text.{text_beq}
use interplanetary_asynchron.Prelude.{
  [], ◌≡◌, refl, true, false, some, none, arith, if◌then◌else◌, nat_eq, pair_eq,
}
use interplanetary_asynchron.Prelude.Index.{find_by, put_by}
use interplanetary_asynchron.Prelude.Map.{get, insert}
use interplanetary_asynchron.Prelude.Outcome.{ok, err, ◌>>=◌, ok_or}
use interplanetary_asynchron.Relay.Blackout.{
  conflicting_payload, next_delivery_after, unix_ms_to_utc, utc_to_unix_millis, pass, settle,
}
use interplanetary_asynchron.Relay.Scheduler.Slots.{Waits, visit-schedules}
use interplanetary_asynchron.Relay.Histories.{begins, submits, visits, restarts, Reach}
use interplanetary_asynchron.Relay.Histories.Final.{Keeps, Runs-Keeps}
use interplanetary_asynchron.Relay.Histories.Reached.{Reach-IsKept}
use interplanetary_asynchron.Relay.Histories.Replay.{submit_package-known}
use interplanetary_asynchron.Relay.Histories.Sound.{IsSound}
use interplanetary_asynchron.Relay.Delivery.{
  RelaySettings, unreachable, schedule_record, schedule_on, schedule_at, update_record,
}
use interplanetary_asynchron.Relay.Records.{to_scheduled}
use interplanetary_asynchron.Relay.Scheduler.{visit, visit_found, act, restart}
use interplanetary_asynchron.Relay.Scheduler.Failures.{Fails, visit-Fails}
use interplanetary_asynchron.Relay.Store.{
  queued, Key, RelayPackageRecord, RelayStore, empty_store, envelope_key, find_record, new_record,
  accept_new, accept_envelope, save_index, persist_record, submit_package,
}
use interplanetary_asynchron.Types.Scale.{earth, mars, domain_eq}

abbrev settings : RelaySettings
settings = record { chrono = chrono; ack_poll_millis = 500; transport = transport }

abbrev key : Key
key = envelope_key envelope

abbrev submitted : RelayStore
submitted = save_index (accept_new envelope body 1_000 empty_store)

taken : submit_package codec body 1_000 empty_store ≡ ok (submitted, (queued, false))
unfolding submit_package accept_envelope ◌>>=◌ find_by
taken = rw body_valid refl

-- Due at 4000, in a blackout until 11000.5.
abbrev scheduled_store : RelayStore
scheduled_store = (visit settings key 1_500 1_500 (unreachable "") submitted).0

abbrev held : RelayPackageRecord
held = to_scheduled true 11_000 (new_record envelope 1_000)

is_held : find_record scheduled_store.packages key ≡ some held
unfolding visit visit_found act schedule_record schedule_on schedule_at update_record accept_new
    persist_record find_by put_by find_link next_delivery_after unix_ms_to_utc utc_to_unix_millis
    settle pass ◌>>=◌ ok_or
is_held = refl

is_stored : get scheduled_store.payloads key ≡ some body
unfolding visit visit_found act schedule_record schedule_on schedule_at update_record accept_new
    persist_record find_by put_by find_link next_delivery_after unix_ms_to_utc utc_to_unix_millis
    settle pass ◌>>=◌ ok_or get insert
is_stored = refl

clear : next_delivery_after chrono (link_between earth mars) 11_000 ≡ ok 11_000
unfolding next_delivery_after unix_ms_to_utc utc_to_unix_millis settle pass ◌>>=◌ ok_or
clear = refl

begun : Reach settings codec 0 submitted
begun = submits 0 empty_store submitted body 1_000 (queued, false) begins taken

waits_there : Reach settings codec 0 scheduled_store
waits_there = visits 0 submitted key 1_500 1_500 (unreachable "") begun

Reach-IsKept_example : IsSound settings codec 1 (restart 500 12_000 scheduled_store)
Reach-IsKept_example =
    Reach-IsKept settings codec 1 (restart 500 12_000 scheduled_store)
      (restarts 0 scheduled_store 12_000 waits_there)

Runs-Keeps_example :
    Keeps settings codec scheduled_store key held (restart 500 12_000 scheduled_store)
Runs-Keeps_example =
    Runs-Keeps settings codec 0 scheduled_store key held 1 (restart 500 12_000 scheduled_store)
      waits_there (restarts 0 scheduled_store 12_000 begins) is_held

submit_package-known_example :
    (original : RelayPackageEnvelope) × (envelope_key original ≡ envelope_key envelope)
    × (get scheduled_store.payloads (envelope_key envelope) ≡ some (codec.encode_envelope original))
    × (submit_package codec body 2_000 scheduled_store ≡ (
        if text_beq (codec.encode_envelope original) (codec.encode_envelope envelope)
        then ok (scheduled_store, (held.state, true))
        else err conflicting_payload))
submit_package-known_example =
    submit_package-known settings codec 0 scheduled_store body envelope pkg held 2_000 waits_there
      body_valid is_held

is_submitted : find_record submitted.packages key ≡ some (new_record envelope 1_000)
unfolding accept_new persist_record find_by put_by
is_submitted = refl

is_linked : link transport earth mars ≡ some (link_between earth mars)
unfolding find_link
is_linked = refl

has_importer : get transport.importers mars ≡ some (importer_at 101)
unfolding get
has_importer = refl

visit-Fails_example :
    Fails
      (link_between earth mars)
      held
      (visit settings key 11_100 11_101 (unreachable "refused") scheduled_store).0
visit-Fails_example =
    visit-Fails settings scheduled_store key held 11_100 11_101 (unreachable "refused")
      (link_between earth mars) 11_000 11_000 body (importer_at 101) is_held refl refl (omega arith)
      is_linked clear (omega arith) is_stored has_importer refl

visit-schedules_example :
    Waits settings
      (link_between earth mars)
      4_000
      (new_record envelope 1_000)
      (visit settings key 1_500 1_500 (unreachable "") submitted).0
visit-schedules_example =
    visit-schedules settings submitted key (new_record envelope 1_000) 1_500 1_500 (unreachable "")
      (link_between earth mars) 4_000 is_submitted refl is_linked refl (omega arith) (omega arith)

abbrev verified : ImporterPackageStatusView
verified = record {
  source_domain = earth;
  target_domain = mars;
  epoch_id = 0;
  package_hash = pkg.package_hash;
  summary_hash = 11;
  state = acked_verified;
  terminal = true;
  reason = none;
  export_count = 1;
  tx_hashes = [];
}
