-- ===== src/Swim/Suspicion.antt =====
-- Suspicion in src/wake_swim.c: the timeout, the local health score, expiry and reaping.
pub mod Expiry
pub mod Preserve
pub mod Timeout
pub mod View
use libwake.Common.{
  ℕ, zero, suc, ◌+◌, ◌-◌, ◌*◌, ◌/◌, ◌^◌, min, Option, none, some, List, [], ◌∷◌, Bool, true, false,
  leb, ltb, ◌==◌, ◌&&◌, if◌then◌else◌, length, keep, count_if, inc32, inc64, sub64, not,
}
use libwake.Swim.Types.{Member, Swim, Config}
use libwake.Swim.State
use libwake.Swim.Queue.{queue_update}
use libwake.Swim.Members.{recount_alive}

abbrev pub health_max : ℕ
health_max = 8

abbrev pub uint32_max : ℕ
uint32_max = 2 ^ 32 - 1

-- The loop `while (n > 1) { n >>= 1; r++; }` with fuel; `r` stays below 32.
pub ilog2_loop : ℕ → ℕ → ℕ → ℕ
ilog2_loop zero n r = r
ilog2_loop (suc fuel) n r = elim (ltb 1 n) [ true ↦ ilog2_loop fuel (n / 2) (r + 1) | false ↦ r ]

-- `n` rounds are enough: `n` halves.
unfoldable pub ilog2 : ℕ → ℕ
unfolding ilog2_loop
ilog2 n = if leb n 1 then 0 else ilog2_loop n n 0

-- `x > y ? x : y` against 2, and the cut at UINT32_MAX
abbrev pub at_least_two : ℕ → ℕ
at_least_two n = if ltb 2 n then n else 2

abbrev pub saturate32 : ℕ → ℕ
saturate32 x = if ltb uint32_max x then uint32_max else x

-- The 64-bit product cannot wrap: 16 bits times 31 times 32 bits.
unfoldable pub base_timeout : Config → ℕ → ℕ
base_timeout config alive_count =
    if not (config.suspect_timeout_ms == 0)
    then config.suspect_timeout_ms
    else (let log_n = ilog2 (at_least_two alive_count) in
        saturate32
          (config.suspicion_mult * (if log_n == 0 then 1 else log_n) * config.protocol_period_ms))

pub suspect_timeout : Swim → ℕ
suspect_timeout sw = saturate32 (base_timeout sw.config sw.alive_count * inc32 sw.health_score)

-- `int delta`: a rise or a fall
pub data Delta : Type 0 where
  worse : ℕ → Delta
  better : ℕ → Delta

-- the sum is taken in 64 signed bits and cut to [0, health_max]; truncated `-` is the cut at 0
pub clamp_health : ℕ → Delta → ℕ
clamp_health h (worse n) = if ltb health_max (h + n) then health_max else h + n
clamp_health h (better n) = if ltb health_max (h - n) then health_max else h - n

unfoldable pub report_health : Swim → Delta → Swim
unfolding clamp_health
report_health sw delta = record sw { health_score = clamp_health sw.health_score delta }

pub health : Swim → ℕ
health sw = sw.health_score

-- One round of the loop of wake_swim_check_suspects.
pub is_expired : ℕ → ℕ → Member → Bool
is_expired timeout now m =
    m.state == State.suspect && (not (m.suspect_ms == 0) && leb timeout (sub64 now m.suspect_ms))

pub buried : ℕ → Member → Member
buried now m = record m { state = State.dead; last_change_ms = now; suspect_ms = 0 }

pub expire_one : ℕ → ℕ → Member → Swim → Member × Swim × ℕ
unfolding is_expired buried queue_update
expire_one timeout now m sw =
    if is_expired timeout now m
    then (let counted = record sw {
      state_changes = inc64 sw.state_changes;
      suspects_expired = inc64 sw.suspects_expired;
    } in
        (buried now m, queue_update counted (buried now m), 1))
    else (m, sw, 0)

-- The loop: the entries after it, the state after it (its `members` not yet written back), and how
-- many expired.
pub expire_loop : ℕ → ℕ → List Member → Swim → List Member × Swim × ℕ
unfolding expire_one
expire_loop timeout now [] sw = ([], sw, 0)
expire_loop timeout now (m ∷ ms) sw =
    let one = expire_one timeout now m sw in
    let rest = expire_loop timeout now ms one.1 in (one.0 ∷ rest.0, rest.1, one.2 + rest.2)

-- `if (changed > 0) { recount_alive(sw); sw->probe_size = 0; }`
unfoldable pub recount_if : ℕ → Swim → Swim
unfolding recount_alive
recount_if zero sw = sw
recount_if (suc n) sw = record (recount_alive sw) { probe_order = [] }

unfoldable pub check_suspects : Swim → ℕ → ℕ × Swim
unfolding suspect_timeout expire_loop recount_if
check_suspects sw now =
    let looped = expire_loop (suspect_timeout sw) now sw.members sw in
    let written = record looped.1 { members = looped.0 } in (looped.2, recount_if looped.2 written)

-- Is the entry dropped by wake_swim_reap?
pub is_reapable : ℕ → ℕ → Member → Bool
is_reapable now retention m =
    State.is_terminal m.state && leb retention (sub64 now m.last_change_ms)

-- The compaction moves every kept entry down, in order.
unfoldable pub reap : Swim → ℕ → ℕ → ℕ × Swim
unfolding is_reapable recount_if
reap sw now retention =
    let reaped = count_if (is_reapable now retention) sw.members in
    let kept = keep (λ m. not (is_reapable now retention m)) sw.members in
    (reaped, recount_if reaped (record sw { members = kept }))
