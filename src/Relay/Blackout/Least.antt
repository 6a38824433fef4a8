-- ===== src/Relay/Blackout/Least.antt =====
-- The loop ends, at the first instant that no window covers.
use interplanetary_asynchron.Prelude.{
  ℕ, zero, suc, ◌+◌, ◌-◌, ◌/◌, ◌≤◌, ◌<◌, ◌≡◌, refl, ap, inl, inr, true, false, some, List, [], ◌∷◌,
  arith, length, In, All, ltb, if◌then◌else◌, Bool-cases, nat_eq, pair_eq,
}
use interplanetary_asynchron.Config.Transport.{
  DateTime, BlackoutWindowConfig, LinkProfileConfig, link,
}
use interplanetary_asynchron.Prelude.Outcome.{ok, ◌>>=◌, ok_or}
use interplanetary_asynchron.Relay.Blackout.{
  Chrono, nanos_per_milli, i64_max, instant, unix_ms_to_utc, utc_to_unix_millis, is_within, pass,
  settle, next_delivery_after,
}
use interplanetary_asynchron.Types.Scale.{domain_eq}

abbrev pub IsClear : List BlackoutWindowConfig → DateTime → Type 0
IsClear windows t = All (λ w. is_within w t ≡ false) windows

-- The first instant from `candidate` on that no window covers.
pub record IsNext (windows : List BlackoutWindowConfig) (candidate t : DateTime) : Type 0 where
  pub later : candidate ≤ t
  pub clear : IsClear windows t
  pub least : (e : DateTime) → candidate ≤ e → IsClear windows e → t ≤ e

-- The windows that a candidate has not passed.
ahead : List BlackoutWindowConfig → DateTime → ℕ
ahead [] t = 0
ahead (w ∷ ws) t = (if ltb t w.end then 1 else 0) + ahead ws t

ahead_mono : (ws : List BlackoutWindowConfig) (s t : DateTime) → s ≤ t → ahead ws t ≤ ahead ws s
unfolding ahead
ahead_mono [] s t le = omega arith
ahead_mono (w ∷ ws) s t le = ground (arith, ahead_mono ws s t le)

ahead-lt :
    (ws : List BlackoutWindowConfig) (w : BlackoutWindowConfig) (s t : DateTime)
    → In w ws
    → s < w.end
    → w.end ≤ t
    → ahead ws t < ahead ws s
unfolding ahead
ahead-lt [] w s t m lt le = absurd m
ahead-lt (v ∷ ws) w s t (inl e) lt le =
    let same : w.end ≡ v.end = ap (λ x. x.end) e in ground (arith, ahead_mono ws s t (omega arith))
ahead-lt (v ∷ ws) w s t (inr m) lt le = ground (arith, ahead-lt ws w s t m lt le)

ahead-le : (ws : List BlackoutWindowConfig) (t : DateTime) → ahead ws t ≤ length ws
unfolding ahead
ahead-le [] t = omega arith
ahead-le (w ∷ ws) t = ground (arith, ahead-le ws t)

pass-le : (ws : List BlackoutWindowConfig) (t : DateTime) → t ≤ (pass ws t).0
unfolding pass
pass-le [] t = omega arith
pass-le (w ∷ ws) t = ground (arith, pass-le ws (if is_within w t then w.end else t))

pass-advanced :
    (ws : List BlackoutWindowConfig) (t : DateTime)
    → (pass ws t).1 ≡ true
    → (w : BlackoutWindowConfig) × In w ws × (t < w.end) × (w.end ≤ (pass ws t).0)
unfolding pass
pass-advanced [] t h = absurd (ground arith)
pass-advanced (w ∷ ws) t h = elim (Bool-cases (is_within w t)) [
  | inl y ↦ (w, inl refl, ground arith, rw y (pass-le ws w.end))
  | inr n ↦ let (v, m, lt, le) = pass-advanced ws t (rw n at h) in (v, inr m, lt, rw n le)
]

pass-still :
    (ws : List BlackoutWindowConfig) (t : DateTime)
    → (pass ws t).1 ≡ false
    → ((pass ws t).0 ≡ t) × IsClear ws t
unfolding pass
pass-still [] t h = (refl, tt)
pass-still (w ∷ ws) t h = elim (Bool-cases (is_within w t)) [
  | inl y ↦ absurd (ground arith)
  | inr n ↦ let (same, clear) = pass-still ws t (rw n at h) in (rw n same, (n, clear))
]

pass-least :
    (ws : List BlackoutWindowConfig) (t e : DateTime) → t ≤ e → IsClear ws e → (pass ws t).0 ≤ e
unfolding pass
pass-least [] t e le clear = le
pass-least (w ∷ ws) t e le clear =
    pass-least ws (if is_within w t then w.end else t) e (ground (arith, clear.0)) clear.1

settle-IsNext :
    (ws : List BlackoutWindowConfig) (fuel : ℕ) (t : DateTime)
    → ahead ws t < fuel
    → (last : DateTime) × (settle fuel ws t ≡ some last) × IsNext ws t last
unfolding settle
settle-IsNext ws zero t enough = absurd (omega arith)
settle-IsNext ws (suc fuel) t enough = elim (Bool-cases (pass ws t).1) [
  | inl moved ↦
      let (w, m, lt, le) = pass-advanced ws t moved in
      let (last, found, next) =
        settle-IsNext ws fuel (pass ws t).0
          (omega (arith, ahead-lt ws w t (pass ws t).0 m lt le)) in
      (
        last,
        rw (moved, found),
        record {
          later = omega (arith, pass-le ws t, next.later);
          clear = next.clear;
          least = λ e from clear. next.least e (pass-least ws t e from clear) clear;
        },
      )
  | inr still ↦
      let (same, clear) = pass-still ws t still in
      (
        (pass ws t).0,
        rw still,
        rw same (record { later = omega arith; clear = clear; least = λ e from _. from }),
      )
]

-- For every time that the calendar holds, the loop ends, and the result is the millisecond of the
-- first instant at or after it that no blackout window of the link covers.
pub next_delivery_after-least :
    (chrono : Chrono) (link : LinkProfileConfig) (unix_ms : ℕ)
    → unix_ms ≤ i64_max
    → unix_ms ≤ chrono.max_millis
    → (t : DateTime) × IsNext link.blackout_windows (instant chrono unix_ms) t
      × (next_delivery_after chrono link unix_ms ≡ ok ((t - chrono.unix_epoch) / nanos_per_milli))
unfolding next_delivery_after unix_ms_to_utc utc_to_unix_millis ok_or ◌>>=◌
next_delivery_after-least chrono link unix_ms fits in_range =
    let ws = link.blackout_windows in
    let (t, found, next) =
      settle-IsNext ws (suc (length ws)) (instant chrono unix_ms)
        (omega (arith, ahead-le ws (instant chrono unix_ms))) in
    (t, next, ground (arith, found, next.later))
