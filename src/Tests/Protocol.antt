-- ===== src/Tests/Protocol.antt =====
-- The properties of probing, suspicion, piggybacking and the life cycle at concrete inputs.
use libwake.Common.{ℕ, ◌≤◌, ◌*◌, ◌<◌, ◌^◌, ◌≡◌, refl, some, true, arith, length, ◌⊎◌}
use libwake.Common.Keyed.{lookup, find_index}
use libwake.Swim.Types.{NodeId}
use libwake.Swim.State
use libwake.Swim.Queue.{node_of, enqueue}
use libwake.Swim.Queue.Laws.{IsEviction, replaced, enqueue-effect}
use libwake.Swim.Probe.{rebuild_probe_order, select_delegates}
use libwake.Swim.Probe.Shuffle.{occurrences, rebuild-occurrences}
use libwake.Swim.Probe.Sweep.{probes, targets_of, round-probes}
use libwake.Swim.Probe.Delegates.{IsDelegation, select_delegates-IsDelegation}
use libwake.Swim.Dissemination.{get_updates}
use libwake.Swim.Dissemination.Batch.{IsBatch, get_updates-IsBatch}
use libwake.Swim.Dissemination.Limit.{still_queued, get_updates-queue}
use libwake.Swim.Lifecycle.{Allocation}
use libwake.Swim.Api
use libwake.Swim.Calls.{Step, Reach, IsSound, Reach-IsSound}
use libwake.Swim.Calls.Rounds.{HasNoRound, Reach-HasNoRound}
use libwake.Tests.Samples.{node, update, table, table-IsQueue, table-IsValid}

-- A node that hears of a death, then probes.
abbrev probed : Api.Handle
probed = (Api.next_probe (Api.apply_update (some table) (some (update 2 State.dead 3)) 5000).1).1

two_calls : Reach (some table) probed
two_calls =
    Reach.next (Reach.next Reach.here (Step.hear (some table) (some (update 2 State.dead 3)) 5000))
      (Step.probe (Api.apply_update (some table) (some (update 2 State.dead 3)) 5000).1)

Reach-IsSound_example : IsSound probed
Reach-IsSound_example = Reach-IsSound table-IsValid two_calls

Reach-HasNoRound_example : HasNoRound probed
Reach-HasNoRound_example = Reach-HasNoRound table-IsValid refl two_calls

round-probes_example : probes 2 table ≡ targets_of table (rebuild_probe_order table).probe_order
round-probes_example = round-probes table table-IsValid refl

rebuild-occurrences_example :
    (occurrences 1 (rebuild_probe_order table).probe_order ≡ 1)
    × (length (rebuild_probe_order table).probe_order ≡ 2)
rebuild-occurrences_example = rebuild-occurrences table 1

select_delegates-IsDelegation_example :
    IsDelegation table (some (node 2)) 3 (select_delegates table (some (node 2)) 3).0
select_delegates-IsDelegation_example = select_delegates-IsDelegation table (some (node 2)) 3

get_updates-IsBatch_example : IsBatch table.updates (get_updates table 1).0 1
get_updates-IsBatch_example = get_updates-IsBatch table 1 table-IsValid

get_updates-queue_example :
    let r = get_updates table 1 in
    (l : ℕ) × (2 ^ l ≤ 2)
    × (2 < 2 ^ l * 2)
    × ((j : NodeId)
        → lookup node_of r.1.updates j ≡ still_queued (3 * l) r.0 (lookup node_of table.updates j))
get_updates-queue_example = get_updates-queue table 1 table-IsValid (λ e. absurd (omega (arith, e)))

-- The queue is full: a third node's update takes the place of the one sent most often.
enqueue-effect_example :
    let us = table.updates in
    let u = update 5 State.alive 0 in
    let queued = enqueue 2 us (find_index node_of us u.node_id) u in
    ((j : NodeId) → lookup node_of queued j ≡ replaced us u j) ⊎ IsEviction 2 us u queued
enqueue-effect_example = enqueue-effect 2 table.updates (update 5 State.alive 0) table-IsQueue

abbrev everything : Allocation
everything = record { address = some 140; members = true; probe_order = true; updates = true }
