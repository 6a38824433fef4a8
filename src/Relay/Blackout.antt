-- ===== src/Relay/Blackout.antt =====
-- services/relay/src/lib.rs: `next_delivery_after`, the loop that moves a delivery out of the
-- blackout windows of its link, and the relay's errors. The calendar of `chrono` is outside the
-- repository: a `Chrono` has the nanoseconds from its first instant to 1970, and its last
-- millisecond since then.
pub mod Least
use interplanetary_asynchron.Prelude.{
  ℕ, zero, suc, ◌+◌, ◌-◌, ◌*◌, ◌/◌, Bool, false, ◌&&◌, ◌||◌, Option, none, some, List, [], ◌∷◌,
  length, ltb, leb, if◌then◌else◌, nat_eq, pair_eq,
}
use interplanetary_asynchron.Config.Transport.{
  DateTime, BlackoutWindowConfig, LinkProfileConfig, link,
}
use interplanetary_asynchron.Prelude.Outcome.{Outcome, ok, err, ◌>>=◌, ◌>>◌, ok_or}
use interplanetary_asynchron.Types.Scale.{domain_eq}

pub data RelayError : Type 0 where
  timestamp_out_of_range missing_link_profile missing_importer_endpoint : RelayError
  missing_payload conflicting_payload : RelayError
  undecodable_envelope undecodable_package package_hash_mismatch envelope_hash_mismatch : RelayError
  source_domain_mismatch epoch_mismatch summary_hash_mismatch target_domain_mismatch : RelayError
  export_count_mismatch too_few_proofs undecodable_proof misplaced_proof : RelayError
  mixed_targets foreign_proof foreign_epoch : RelayError
  undecodable_response : RelayError

pub record Chrono : Type 0 where
  pub unix_epoch : DateTime
  pub max_millis : ℕ

abbrev pub nanos_per_milli : ℕ
nanos_per_milli = 1_000_000

abbrev pub i64_max : ℕ
i64_max = 0x7fffffffffffffff

-- The instant of a Unix time.
abbrev pub instant : Chrono → ℕ → DateTime
instant chrono unix_ms = chrono.unix_epoch + unix_ms * nanos_per_milli

-- `i64::try_from` and `DateTime::from_timestamp_millis`.
unfoldable pub unix_ms_to_utc : Chrono → ℕ → Outcome RelayError DateTime
unix_ms_to_utc chrono unix_ms =
    if leb unix_ms i64_max && leb unix_ms chrono.max_millis
    then ok (instant chrono unix_ms)
    else err timestamp_out_of_range

-- `timestamp_millis` rounds down, and is negative before 1970.
unfoldable pub utc_to_unix_millis : Chrono → DateTime → Outcome RelayError ℕ
utc_to_unix_millis chrono timestamp =
    if leb chrono.unix_epoch timestamp
    then ok ((timestamp - chrono.unix_epoch) / nanos_per_milli)
    else err timestamp_out_of_range

abbrev pub is_within : BlackoutWindowConfig → DateTime → Bool
is_within window candidate = leb window.start candidate && ltb candidate window.end

-- The `for` loop: the candidate, and whether it advanced.
unfoldable pub pass : List BlackoutWindowConfig → DateTime → DateTime × Bool
pass [] candidate = (candidate, false)
pass (window ∷ rest) candidate =
    let hit = is_within window candidate in
    let (last, advanced) = pass rest (if hit then window.end else candidate) in
    (last, hit || advanced)

-- The outer `loop`; `none` means that the fuel ran out.
unfoldable pub settle : ℕ → List BlackoutWindowConfig → DateTime → Option DateTime
settle zero windows candidate = none
settle (suc fuel) windows candidate =
    let (last, advanced) = pass windows candidate in
    let rest = settle fuel windows last in if advanced then rest else some last

unfoldable pub next_delivery_after : Chrono → LinkProfileConfig → ℕ → Outcome RelayError ℕ
next_delivery_after chrono link unix_ms = do
  candidate ← unix_ms_to_utc chrono unix_ms
  settled ←
      ok_or (settle (suc (length link.blackout_windows)) link.blackout_windows candidate)
        timestamp_out_of_range
  utc_to_unix_millis chrono settled
