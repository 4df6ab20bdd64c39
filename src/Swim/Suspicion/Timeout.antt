-- ===== src/Swim/Suspicion/Timeout.antt =====
-- The suspicion timeout and the health score.
use libwake.Common.{
  ℕ, zero, suc, ◌+◌, ◌-◌, ◌*◌, ◌/◌, ◌^◌, ◌≡◌, ◌≤◌, ◌<◌, ◌∙◌, true, false, ltb, leb, ◌==◌, arith,
  Bool-cases, inl, inr, min, inc32,
}
use native.Mathlib.Nat.{pow-suc}
use libwake.Swim.Types.{Swim}
use libwake.Swim.Suspicion.{
  ilog2_loop, ilog2, at_least_two, saturate32, uint32_max, base_timeout, suspect_timeout,
  health_max, worse, better, report_health, health,
}

-- The loop adds the logarithm to what it began with.
ilog2_loop-bounds :
    (fuel n r : ℕ)
    → n ≤ fuel
    → 0 < n
    → (l : ℕ) × (ilog2_loop fuel n r ≡ r + l) × (2 ^ l ≤ n) × (n < 2 ^ l * 2)
unfolding ilog2_loop
ilog2_loop-bounds zero n r h pos = absurd (omega arith)
ilog2_loop-bounds (suc fuel) n r h pos = elim (Bool-cases (ltb 1 n)) [
  | inr one ↦ (0, rw (one, ilog2_loop) (omega arith), omega arith, ground arith)
  | inl more ↦
      let big : 1 < n = ground (arith, more) in
      let (l, e, lo, hi) = ilog2_loop-bounds fuel (n / 2) (r + 1) (omega arith) (omega arith) in
      (
        suc l,
        rw (more, ilog2_loop) (e ∙ omega arith),
        rw pow-suc (omega (arith, lo)),
        rw pow-suc (omega (arith, hi)),
      )
]

-- `ilog2` is the logarithm rounded down.
pub ilog2-bounds : (n : ℕ) → 0 < n → (2 ^ ilog2 n ≤ n) × (n < 2 ^ ilog2 n * 2)
unfolding ilog2
ilog2-bounds n pos = elim (Bool-cases (leb n 1)) [
  | inl one ↦ rw one (omega arith, ground (arith, one))
  | inr more ↦
      let (l, e, lo, hi) = ilog2_loop-bounds n n 0 (omega arith) pos in
      let e' : ilog2_loop n n 0 ≡ l = omega (arith, e) in rw (more, e') (lo, hi)
]

two_pow_pos : (l : ℕ) → 0 < 2 ^ l
two_pow_pos zero = omega arith
two_pow_pos (suc l) = rw pow-suc (omega (arith, two_pow_pos l))

pub some_rounds_of : (n : ℕ) → 2 ≤ n → (ilog2 n == 0) ≡ false
some_rounds_of n two = elim (Bool-cases (ilog2 n == 0)) [
  | inr some_log ↦ some_log
  | inl none_log ↦
      let e : ilog2 n ≡ 0 = ground (arith, none_log) in
      absurd (omega (arith, rw e at ((ilog2-bounds n (omega arith)).1)))
]

saturate32-min : (x : ℕ) → saturate32 x ≡ min x uint32_max
saturate32-min x = ground arith

-- The timeout without a health penalty.
abbrev pub baseline : Swim → ℕ
baseline sw = base_timeout sw.config sw.alive_count

-- With a baseline of 32 bits and a health score in its interval the timeout is the baseline times one more than the health score, cut
-- at UINT32_MAX, and is not below the baseline.
pub suspect_timeout-scaled :
    (sw : Swim)
    → baseline sw ≤ uint32_max
    → sw.health_score ≤ health_max
    → (suspect_timeout sw ≡ min (baseline sw * (1 + sw.health_score)) uint32_max)
      × (baseline sw ≤ suspect_timeout sw)
unfolding suspect_timeout
suspect_timeout-scaled sw h healthy =
    let up : inc32 sw.health_score ≡ 1 + sw.health_score = omega (arith, healthy) in
    let cut = saturate32-min (baseline sw * (1 + sw.health_score)) in
    rw up (cut, omega (arith, cut))

-- With no fixed timeout the baseline is the multiplier times the logarithm of the number of
-- probeable members, two at least, rounded down, times the period, cut at UINT32_MAX.
pub base_timeout-log :
    (sw : Swim)
    → sw.config.suspect_timeout_ms ≡ 0
    → (l : ℕ) × (2 ^ l ≤ at_least_two sw.alive_count)
      × (at_least_two sw.alive_count < 2 ^ l * 2)
      × (baseline sw ≡ min (sw.config.suspicion_mult * l * sw.config.protocol_period_ms) uint32_max)
unfolding base_timeout
base_timeout-log sw auto =
    let n = at_least_two sw.alive_count in
    let two : 2 ≤ n = ground arith in
    let (lo, hi) = ilog2-bounds n (omega arith) in
    let some_rounds : (ilog2 n == 0) ≡ false = some_rounds_of n two in
    let fixed : (sw.config.suspect_timeout_ms == 0) ≡ true = ground arith in
    (
      ilog2 n,
      lo,
      hi,
      rw (fixed, some_rounds)
          (saturate32-min (sw.config.suspicion_mult * ilog2 n * sw.config.protocol_period_ms)),
    )

-- A report raises or lowers the health score by its amount, cut to the interval from 0 to
-- WAKE_SWIM_HEALTH_MAX.
pub report_health-clamped :
    (sw : Swim) (n : ℕ)
    → (health (report_health sw (worse n)) ≡ min (sw.health_score + n) health_max)
      × (health (report_health sw (better n)) ≡ min (sw.health_score - n) health_max)
unfolding report_health health
report_health-clamped sw n = ground arith
