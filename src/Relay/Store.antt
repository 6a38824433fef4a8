-- ===== src/Relay/Store.antt =====
-- services/relay/src/store.rs: the index of packages, and the files beside it. The hexadecimal text
-- of a hash is the hash. A path is the key that its name is made of: the source and target domains,
-- the epoch and the package hash. Reading a file that is not there fails; a write succeeds.
use interplanetary_asynchron.Prelude.{
  ℕ, String, Bool, true, false, Option, none, some, List, [], nat_eq, pair_eq,
}
use interplanetary_asynchron.Config.Text.{text_beq}
use interplanetary_asynchron.Packages.{
  Bytes, RelayPackageEnvelope, ImporterPackageState, PackageCodec,
}
use interplanetary_asynchron.Prelude.Index.{find_by, put_by}
use interplanetary_asynchron.Prelude.Map.{Map, get, insert}
use interplanetary_asynchron.Prelude.Outcome.{Outcome, ok, ◌>>=◌, ◌>>◌, ensure, ok_or}
use interplanetary_asynchron.Relay.Blackout.{RelayError, missing_payload, conflicting_payload}
use interplanetary_asynchron.Relay.Envelope.{decode_and_validate_envelope}
use interplanetary_asynchron.Types.Scale.{DomainId, domain_eq, Hash, EpochId}

pub data RelayQueueState : Type 0 where
  queued scheduled blocked_by_blackout in_delivery : RelayQueueState
  delivered importer_acked retrying failed : RelayQueueState

abbrev pub Key : Type 0
Key = DomainId × (DomainId × (EpochId × Hash))

-- `last_delivery_error` by its format: the status and the body's text where it shows them.
pub data DeliveryError : Type 0 where
  importer_returned status_returned : ℕ → String → DeliveryError
  transient_status polling_status : ℕ → DeliveryError
  request_failed polling_failed : String → DeliveryError

pub record RelayPackageRecord : Type 0 where
  pub source_domain : DomainId
  pub target_domain : DomainId
  pub epoch_id : EpochId
  pub summary_hash : Hash
  pub package_hash : Hash
  pub export_count : ℕ
  pub state : RelayQueueState
  pub relay_submitted_at_unix_ms : ℕ
  pub relay_accepted_at_unix_ms : ℕ
  pub ever_blocked_by_blackout : Bool
  pub next_delivery_at_unix_ms : Option ℕ
  pub next_ack_poll_at_unix_ms : Option ℕ
  pub delivery_attempts : ℕ
  pub last_delivery_error : Option DeliveryError
  pub delivered_at_unix_ms : Option ℕ
  pub completed_at_unix_ms : Option ℕ
  pub importer_state : Option ImporterPackageState
  pub importer_reason : Option String
  pub last_importer_status_at_unix_ms : Option ℕ
  pub payload_path : Key
  pub entry_path : Key

abbrev pub key_of : RelayPackageRecord → Key
key_of r = (r.source_domain, (r.target_domain, (r.epoch_id, r.package_hash)))

abbrev pub envelope_key : RelayPackageEnvelope → Key
envelope_key e = (e.source_domain, (e.target_domain, (e.epoch_id, e.package_hash)))

-- The index in memory, the index file, and the entry and payload files.
pub record RelayStore : Type 0 where
  pub packages : List RelayPackageRecord
  pub saved : List RelayPackageRecord
  pub entries : Map Key RelayPackageRecord
  pub payloads : Map Key Bytes

abbrev pub empty_store : RelayStore
empty_store = record { packages = []; saved = []; entries = []; payloads = [] }

-- `RelayIndex::record`.
abbrev pub find_record : List RelayPackageRecord → Key → Option RelayPackageRecord
find_record = find_by key_of

-- The write through `RelayIndex::record_mut`, or the push.
abbrev pub put_record : List RelayPackageRecord → RelayPackageRecord → List RelayPackageRecord
put_record = put_by key_of

unfoldable pub persist_record : RelayPackageRecord → RelayStore → RelayStore
persist_record r s = record s {
  entries = insert s.entries r.entry_path r;
  packages = put_record s.packages r;
}

abbrev pub save_index : RelayStore → RelayStore
save_index s = record s { saved = s.packages }

abbrev pub new_record : RelayPackageEnvelope → ℕ → RelayPackageRecord
new_record envelope accepted_at = record {
  source_domain = envelope.source_domain;
  target_domain = envelope.target_domain;
  epoch_id = envelope.epoch_id;
  summary_hash = envelope.summary_hash;
  package_hash = envelope.package_hash;
  export_count = envelope.export_count;
  state = queued;
  relay_submitted_at_unix_ms = envelope.relay_submitted_at_unix_ms;
  relay_accepted_at_unix_ms = accepted_at;
  ever_blocked_by_blackout = false;
  next_delivery_at_unix_ms = none;
  next_ack_poll_at_unix_ms = none;
  delivery_attempts = 0;
  last_delivery_error = none;
  delivered_at_unix_ms = none;
  completed_at_unix_ms = none;
  importer_state = none;
  importer_reason = none;
  last_importer_status_at_unix_ms = none;
  payload_path = envelope_key envelope;
  entry_path = envelope_key envelope;
}

-- A submission of a package that is known: its payload file against the encoded envelope.
unfoldable pub accept_known :
    RelayPackageRecord
    → Bytes
    → RelayStore
    → Outcome RelayError (RelayStore × (RelayPackageRecord × Bool))
accept_known existing encoded s = do
  current ← ok_or (get s.payloads existing.payload_path) missing_payload
  ensure (text_beq current encoded) conflicting_payload
  ok (s, (existing, true))

-- And of a new one.
unfoldable pub accept_new : RelayPackageEnvelope → Bytes → ℕ → RelayStore → RelayStore
accept_new envelope encoded accepted_at s =
    persist_record (new_record envelope accepted_at)
      (record s { payloads = insert s.payloads (envelope_key envelope) encoded })

unfoldable pub accept_envelope :
    PackageCodec
    → RelayPackageEnvelope
    → ℕ
    → RelayStore
    → Outcome RelayError (RelayStore × (RelayPackageRecord × Bool))
accept_envelope codec envelope accepted_at s =
    elim (find_record s.packages (envelope_key envelope)) [
      | some existing ↦ accept_known existing (codec.encode_envelope envelope) s
      | none ↦ ok (
        accept_new envelope (codec.encode_envelope envelope) accepted_at s,
        (new_record envelope accepted_at, false),
      )
    ]

-- `submit_package` without its HTTP statuses: the record's state, and whether it was known.
unfoldable pub submit_package :
    PackageCodec
    → Bytes
    → ℕ
    → RelayStore
    → Outcome RelayError (RelayStore × (RelayQueueState × Bool))
submit_package codec body now s = do
  decoded ← decode_and_validate_envelope codec body
  accepted ← accept_envelope codec decoded.0 now s
  ok (save_index accepted.0, (accepted.1.0.state, accepted.1.1))
