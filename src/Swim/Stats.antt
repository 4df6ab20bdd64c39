-- ===== src/Swim/Stats.antt =====
-- Iteration, the statistics snapshot and the names of src/wake_swim.c.
pub mod Counts
use Prim.Native.String.{String}
use libwake.Common.{
  ℕ, ◌+◌, List, [], ◌∷◌, Bool, true, false, leb, ltb, ◌==◌, if◌then◌else◌, get_elem?, Option, none,
  some,
}
use libwake.Swim.Types.{Member, Swim, Result}
use libwake.Swim.State

-- The callback with its context as explicit state: it returns whether to go on.
pub iterate_loop {ℓ} : {C : Type ℓ} → (Member → C → Bool × C) → List Member → C → ℕ × C
iterate_loop fn [] ctx = (0, ctx)
iterate_loop fn (m ∷ ms) ctx =
    let called = fn m ctx in
    let rest = iterate_loop fn ms called.1 in
    if called.0 then (1 + rest.0, rest.1) else (1, called.1)

abbrev pub iterate {ℓ} : {C : Type ℓ} → Swim → (Member → C → Bool × C) → C → ℕ × C
unfolding iterate_loop
iterate sw fn ctx = iterate_loop fn sw.members ctx

-- wake_swim_stats_t
pub record Stats : Type 0 where
  pub total : ℕ
  pub alive : ℕ
  pub suspect : ℕ
  pub dead : ℕ
  pub left : ℕ
  pub probe_eligible : ℕ
  pub rounds_completed : ℕ
  pub state_changes : ℕ
  pub updates_queued : ℕ
  pub updates_piggybacked : ℕ
  pub suspects_expired : ℕ

abbrev pub zero_stats : Stats
zero_stats = record {
  total = 0;
  alive = 0;
  suspect = 0;
  dead = 0;
  left = 0;
  probe_eligible = 0;
  rounds_completed = 0;
  state_changes = 0;
  updates_queued = 0;
  updates_piggybacked = 0;
  suspects_expired = 0;
}

-- `out->total++` and the switch; no table has 2 ^ 32 entries, so nothing wraps
pub tally : Stats → ℕ → Stats
tally t s =
    let t' = record t { total = t.total + 1 } in
    if s == State.alive
    then record t' { alive = t.alive + 1 }
    else if s == State.suspect
    then record t' { suspect = t.suspect + 1 }
    else if s == State.dead
    then record t' { dead = t.dead + 1 }
    else if s == State.left
    then record t' { left = t.left + 1 }
    else t'

pub tally_all : List Member → Stats → Stats
unfolding tally
tally_all [] t = t
tally_all (m ∷ ms) t = tally_all ms (tally t m.state)

pub stats : Swim → Stats
unfolding tally_all
stats sw =
    let t = tally_all sw.members zero_stats in
    record t {
      probe_eligible = t.alive + t.suspect;
      rounds_completed = sw.rounds_completed;
      state_changes = sw.state_changes;
      updates_queued = sw.updates_queued;
      updates_piggybacked = sw.updates_piggybacked;
      suspects_expired = sw.suspects_expired;
    }

abbrev pub state_names : List String
state_names = "ALIVE" ∷ "SUSPECT" ∷ "DEAD" ∷ "LEFT" ∷ []

abbrev pub state_name : ℕ → String
state_name s = elim (get_elem? state_names s) [ none ↦ "UNKNOWN" | some n ↦ n ]

abbrev pub result_name : Result → String
result_name Result.ok = "OK"
result_name Result.exists = "EXISTS"
result_name Result.not_found = "NOT_FOUND"
result_name Result.full = "FULL"
result_name Result.self = "SELF"
result_name Result.stale = "STALE"
result_name Result.noop = "NOOP"
