-- ===== src/Swim/Invariant.antt =====
-- The representation invariant of `wake_swim_t`.
use libwake.Common.{ℕ, ◌^◌, ◌≡◌, ◌≤◌, ◌<◌, none, List, [], true, length, get_or, arith}
use libwake.Common.Keyed.{find_index, Distinct}
use libwake.Swim.Types.{Member, Swim}
use libwake.Swim.Queue.Laws.{IsQueue}
use libwake.Swim.Members.{id_of, count_alive}
use libwake.Swim.Probe.{is_target}
use libwake.Swim.Suspicion.{health_max}

-- Every index of the order is that of an alive or suspect member.
abbrev pub AreTargets : List Member → List ℕ → Type 0
AreTargets ms order = (k : ℕ) → k < length order → is_target ms (get_or order k 0) ≡ true

pub AreTargets-nil : (ms : List Member) → AreTargets ms []
AreTargets-nil ms k h = absurd (omega arith)

pub record IsValid (sw : Swim) : Type 0 where
  pub small : sw.config.max_members < 2 ^ 16
  pub fits : length sw.members ≤ sw.config.max_members
  pub distinct : Distinct id_of sw.members
  pub no_self : find_index id_of sw.members sw.self_id ≡ none
  pub counted : sw.alive_count ≡ count_alive sw.members
  pub queue : IsQueue sw.config.update_queue_size sw.updates
  pub targets : AreTargets sw.members sw.probe_order
  pub healthy : sw.health_score ≤ health_max
