-- ===== src/Quorum.antt =====
-- Quorum sensing, src/wake_quorum.c: the sweep over the slots of a pheromone table, with a callback
-- and without. What `wake_pheromone_read_entry` answers for each slot in turn, while other threads
-- write the table, is an argument: a list with an entry or nothing for each slot.
pub mod Sweep
pub mod History
pub mod Preseed
pub mod Names
use libwake.Common.{
  ℕ, ◌+◌, Option, none, some, List, [], ◌∷◌, ◌++◌, Bool, true, false, leb, ltb, ◌==◌, ◌&&◌,
  if◌then◌else◌, length, inc32, inc64, map, replicate,
}

-- wake_quorum_tier_t, compared as numbers
abbrev pub tier_none : ℕ
tier_none = 0

abbrev pub tier_observe : ℕ
tier_observe = 1

abbrev pub tier_alert : ℕ
tier_alert = 2

-- wake_quorum_action_t, without WAKE_QUORUM_ACT_NONE, which no sweep emits
pub data Action : Type 0 where
  observe : Action
  alert : Action
  retract : Action

pub record Config : Type 0 where
  pub observe_confidence : ℕ
  pub observe_min_hits : ℕ
  pub alert_confidence : ℕ
  pub alert_min_sources : ℕ
  pub alert_min_hits : ℕ
  pub retract_confidence : ℕ

pub record Slot : Type 0 where
  pub key_hash : ℕ
  pub emitted_tier : ℕ

-- The fields of a snapshot that a sweep looks at.
pub record Entry : Type 0 where
  pub key_hash : ℕ
  pub confidence : ℕ
  pub src_count : ℕ
  pub hit_count : ℕ

-- wake_quorum_sweep_result_t
pub record SweepResult : Type 0 where
  pub slots_scanned : ℕ
  pub slots_live : ℕ
  pub new_observations : ℕ
  pub new_alerts : ℕ
  pub new_retractions : ℕ
  pub suppressed : ℕ

-- wake_quorum_t; `capacity` is the length of `slots`
pub record Quorum : Type 0 where
  pub config : Config
  pub slots : List Slot
  pub observations_emitted : ℕ
  pub alerts_emitted : ℕ
  pub retractions_emitted : ℕ
  pub suppressed : ℕ

unfoldable pub default_config : Config
default_config = record {
  observe_confidence = 5000;
  observe_min_hits = 3;
  alert_confidence = 20000;
  alert_min_sources = 2;
  alert_min_hits = 5;
  retract_confidence = 2000;
}

pub classify : Config → ℕ → ℕ → ℕ → ℕ
classify cfg confidence src_count hit_count =
    if leb cfg.alert_confidence confidence
      && (leb cfg.alert_min_sources src_count && leb cfg.alert_min_hits hit_count)
    then tier_alert
    else if leb cfg.observe_confidence confidence && leb cfg.observe_min_hits hit_count
    then tier_observe
    else tier_none

abbrev pub empty_slot : Slot
empty_slot = record { key_hash = 0; emitted_tier = tier_none }

-- What a round of the loop finds: a dead slot, an action, or nothing new.
pub data Finding : Type 0 where
  gone : Finding
  acts : Action → Finding
  quiet : Finding

-- a different entity in the slot starts afresh
pub reused : Slot → Entry → Slot
reused s e =
    if e.key_hash == s.key_hash
    then s
    else record { key_hash = e.key_hash; emitted_tier = tier_none }

-- A round of the loop on a live slot that is not reused.
pub judge_live : Config → Slot → Entry → Slot × Finding
unfolding classify
judge_live cfg s e =
    let tier = classify cfg e.confidence e.src_count e.hit_count in
    if ltb s.emitted_tier tier
    then (
      record s { emitted_tier = tier },
      acts (if tier == tier_alert then Action.alert else Action.observe),
    )
    else if s.emitted_tier == tier_alert
        && (ltb tier tier_alert && ltb e.confidence cfg.retract_confidence)
    then (empty_slot, acts Action.retract)
    else (s, quiet)

pub judge : Config → Slot → Option Entry → Slot × Finding
unfolding reused judge_live
judge cfg s none = (empty_slot, gone)
judge cfg s (some e) = judge_live cfg (reused s e) e

-- The counters of a sweep and of the state.
pub record Tally : Type 0 where
  pub result : SweepResult
  pub observations : ℕ
  pub alerts : ℕ
  pub retractions : ℕ
  pub silent : ℕ

abbrev pub scanned : SweepResult → SweepResult
scanned r = record r { slots_scanned = inc32 r.slots_scanned }

abbrev pub alive : SweepResult → SweepResult
alive r = record r { slots_scanned = inc32 r.slots_scanned; slots_live = inc32 r.slots_live }

pub count : Finding → Tally → Tally
count gone t = record t { result = scanned t.result }
count quiet t = record t {
  result = record (alive t.result) { suppressed = inc32 t.result.suppressed };
  silent = inc64 t.silent;
}
count (acts Action.observe) t = record t {
  result = record (alive t.result) { new_observations = inc32 t.result.new_observations };
  observations = inc64 t.observations;
}
count (acts Action.alert) t = record t {
  result = record (alive t.result) { new_alerts = inc32 t.result.new_alerts };
  alerts = inc64 t.alerts;
}
count (acts Action.retract) t = record t {
  result = record (alive t.result) { new_retractions = inc32 t.result.new_retractions };
  retractions = inc64 t.retractions;
}

-- A callback with its context as explicit state: whether to go on, and the context. `none` is NULL.
abbrev pub Callback {ℓ} : Type ℓ → Type ℓ
Callback C = Option (Action → ℕ → Entry → C → Bool × C)

-- What the callback does with a finding.
pub tell {ℓ} : {C : Type ℓ} → Callback C → Finding → ℕ → Option Entry → C → Bool × C
tell (some fn) (acts a) i (some e) ctx = fn a i e ctx
tell fn f i e ctx = (true, ctx)

-- The loop over the slots that both tables have; it returns the slots, the counters and the context.
pub sweep_loop {ℓ} :
    {C : Type ℓ}
    → Config
    → Callback C
    → ℕ
    → List Slot
    → List (Option Entry)
    → Tally
    → C
    → List Slot × Tally × C
unfolding judge count tell
sweep_loop cfg fn i (s ∷ ss) (e ∷ es) t ctx =
    let found = judge cfg s e in
    let told = tell fn found.1 i e ctx in
    let counted = count found.1 t in
    let rest = sweep_loop cfg fn (i + 1) ss es counted told.1 in
    if told.0 then (found.0 ∷ rest.0, rest.1, rest.2) else (found.0 ∷ ss, counted, told.1)
sweep_loop cfg fn i ss es t ctx = (ss, t, ctx)

-- wake_quorum_hit_t
pub record Hit : Type 0 where
  pub action : Action
  pub slot_idx : ℕ
  pub entry : Entry

-- The caller's array with room for `room` hits takes the first ones.
pub put : ℕ → Action → ℕ → Entry → List Hit → List Hit
put room a i e hits =
    if ltb (length hits) room
    then hits ++ record { action = a; slot_idx = i; entry = e } ∷ []
    else hits

-- The counters of a live slot, by what wake_quorum_sweep_collect does with it.
abbrev pub collected : Tally → Action → Tally
collected t Action.observe = record t {
  result = record (alive t.result) { new_observations = inc32 t.result.new_observations };
  observations = inc64 t.observations;
}
collected t Action.alert = record t {
  result = record (alive t.result) { new_alerts = inc32 t.result.new_alerts };
  alerts = inc64 t.alerts;
}
collected t Action.retract = record t {
  result = record (alive t.result) { new_retractions = inc32 t.result.new_retractions };
  retractions = inc64 t.retractions;
}

-- A round of the loop of wake_quorum_sweep_collect, which the source writes out a second time: the
-- slot, the counters and the hits.
pub collect_one : Config → ℕ → ℕ → Slot → Option Entry → Tally → List Hit → Slot × Tally × List Hit
unfolding classify put
collect_one cfg room i s none t hits = (
  record { key_hash = 0; emitted_tier = tier_none },
  record t { result = scanned t.result },
  hits,
)
collect_one cfg room i s (some e) t hits =
    let slot =
      if e.key_hash == s.key_hash
      then s
      else record { key_hash = e.key_hash; emitted_tier = tier_none } in
    let tier = classify cfg e.confidence e.src_count e.hit_count in
    let act = if tier == tier_alert then Action.alert else Action.observe in
    if ltb slot.emitted_tier tier
    then (record slot { emitted_tier = tier }, collected t act, put room act i e hits)
    else if slot.emitted_tier == tier_alert
        && (ltb tier tier_alert && ltb e.confidence cfg.retract_confidence)
    then (
      record slot { emitted_tier = tier_none; key_hash = 0 },
      collected t Action.retract,
      put room Action.retract i e hits,
    )
    else (
      slot,
      record t {
        result = record (alive t.result) { suppressed = inc32 t.result.suppressed };
        silent = inc64 t.silent;
      },
      hits,
    )

-- The loop of wake_quorum_sweep_collect.
pub collect_loop :
    Config
    → ℕ
    → ℕ
    → List Slot
    → List (Option Entry)
    → Tally
    → List Hit
    → List Slot × Tally × List Hit
unfolding collect_one
collect_loop cfg room i (s ∷ ss) (e ∷ es) t hits =
    let one = collect_one cfg room i s e t hits in
    let rest = collect_loop cfg room (i + 1) ss es one.1 one.2 in (one.0 ∷ rest.0, rest.1, rest.2)
collect_loop cfg room i ss es t hits = (ss, t, hits)

abbrev pub zero_result : SweepResult
zero_result = record {
  slots_scanned = 0;
  slots_live = 0;
  new_observations = 0;
  new_alerts = 0;
  new_retractions = 0;
  suppressed = 0;
}

abbrev pub counters : Quorum → Tally
counters q = record {
  result = zero_result;
  observations = q.observations_emitted;
  alerts = q.alerts_emitted;
  retractions = q.retractions_emitted;
  silent = q.suppressed;
}

abbrev pub store : Quorum → List Slot → Tally → Quorum
store q slots t = record q {
  slots = slots;
  observations_emitted = t.observations;
  alerts_emitted = t.alerts;
  retractions_emitted = t.retractions;
  suppressed = t.silent;
}

-- Both sweeps return their result, the state, and the context or the hits.
pub sweep {ℓ} :
    {C : Type ℓ} → Quorum → List (Option Entry) → Callback C → C → SweepResult × Quorum × C
unfolding sweep_loop
sweep q reads fn ctx =
    let done = sweep_loop q.config fn 0 q.slots reads (counters q) ctx in
    (done.1.result, store q done.0 done.1, done.2)

pub sweep_collect : Quorum → List (Option Entry) → ℕ → SweepResult × Quorum × List Hit
unfolding collect_loop
sweep_collect q reads room =
    let done = collect_loop q.config room 0 q.slots reads (counters q) [] in
    (done.1.result, store q done.0 done.1, done.2)

-- Does the allocator give the state and the slots? `none` for the configuration is NULL.
unfoldable pub create : Bool → Bool → ℕ → Option Config → Option Quorum
unfolding default_config
create state_given slots_given capacity cfg =
    if state_given && slots_given
    then some (record {
      config = elim cfg [ none ↦ default_config | some c ↦ c ];
      slots = replicate capacity empty_slot;
      observations_emitted = 0;
      alerts_emitted = 0;
      retractions_emitted = 0;
      suppressed = 0;
    })
    else none

abbrev pub uncounted : Quorum → Quorum
uncounted q = record q {
  observations_emitted = 0;
  alerts_emitted = 0;
  retractions_emitted = 0;
  suppressed = 0;
}

unfoldable pub reset : Quorum → Quorum
reset q = uncounted (record q { slots = map (λ (s : Slot). empty_slot) q.slots })

-- a sweep without callback and context, whose emissions are not counted
pub preseed : Quorum → List (Option Entry) → Quorum
unfolding sweep
preseed q reads = uncounted (sweep {C = ℕ} q reads none 0).1
