-- ===== src/Tests/Sensing.antt =====
-- The properties of quorum sensing at concrete inputs.
use libwake.Common.{ℕ, ◌+◌, ◌≡◌, ◌≤◌, Option, some, List, [], ◌∷◌, true}
use libwake.Quorum.{
  Entry, Quorum, default_config, sweep, sweep_collect, preseed, reset, empty_slot, Callback,
}
use libwake.Quorum.Sweep.{collector, sweep_collect-sweep}
use libwake.Quorum.History.{alerts_of, retractions_of, standing, retractions-alerts}
use libwake.Quorum.Preseed.{preseed-IsSilent, reset-AllEmpty}

-- an entry above the alert thresholds, and the same after its decay
abbrev strong : Entry
strong = record { key_hash = 77; confidence = 30000; src_count = 3; hit_count = 9 }

abbrev faint : Entry
faint = record strong { confidence = 100 }

abbrev two_slots : Quorum
two_slots = record {
  config = default_config;
  slots = empty_slot ∷ record { key_hash = 77; emitted_tier = 2 } ∷ [];
  observations_emitted = 0;
  alerts_emitted = 1;
  retractions_emitted = 0;
  suppressed = 0;
}

abbrev reads : List (Option Entry)
reads = some strong ∷ some faint ∷ []

-- a callback that counts its calls
abbrev tick : Callback ℕ
tick = some (λ a i e n. (true, n + 1))

sweep_collect-sweep_example :
    sweep_collect two_slots reads 1 ≡ sweep two_slots reads (collector 1) []
sweep_collect-sweep_example = sweep_collect-sweep two_slots reads 1

preseed-IsSilent_example :
    let r = sweep (preseed (reset two_slots) reads) reads tick 0 in
    (r.0.new_observations ≡ 0) × (r.0.new_alerts ≡ 0) × (r.0.new_retractions ≡ 0) × (r.2 ≡ 0)
preseed-IsSilent_example =
    preseed-IsSilent (reset two_slots) reads tick 0 (reset-AllEmpty two_slots)

retractions-alerts_example :
    retractions_of default_config empty_slot reads
    ≤ alerts_of default_config empty_slot reads + standing empty_slot
retractions-alerts_example = retractions-alerts default_config empty_slot reads
