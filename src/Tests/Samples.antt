-- ===== src/Tests/Samples.antt =====
-- A table of three members, and updates about them.
use libwake.Common.{ℕ, zero, suc, refl, [], ◌∷◌, replicate, mem_eq, arith}
use libwake.Swim.Types.{NodeId, Member, Update, Config, Swim}
use libwake.Swim.State
use libwake.Swim.Queue.Laws.{IsQueue}
use libwake.Swim.Invariant.{IsValid}

abbrev pub node : ℕ → NodeId
node k = replicate 32 k

abbrev pub member : ℕ → ℕ → ℕ → ℕ → Member
member k state incarnation since = record {
  node_id = node k;
  last_change_ms = since;
  suspect_ms = elim state [ zero ↦ 0 | suc s ↦ elim s [ zero ↦ since | suc r ↦ 0 ] ];
  addr = 16;
  incarnation = incarnation;
  port = 4000;
  state = state;
}

abbrev pub update : ℕ → ℕ → ℕ → Update
update k state incarnation = record {
  node_id = node k;
  addr = 16;
  port = 4000;
  state = state;
  incarnation = incarnation;
  piggyback_count = 0;
}

abbrev pub sent : ℕ → Update → Update
sent n u = record u { piggyback_count = n }

abbrev pub small_config : Config
small_config = record {
  max_members = 4;
  update_queue_size = 2;
  suspicion_mult = 5;
  max_piggybacks = 8;
  protocol_period_ms = 1000;
  suspect_timeout_ms = 0;
  prng_seed = 7;
}

-- node 1 is alive, node 2 suspect since 1000, node 3 departed at 2000; this node is 9
abbrev pub table : Swim
table = record {
  config = small_config;
  members =
      member 1 State.alive 0 500 ∷ member 2 State.suspect 3 1000 ∷ member 3 State.left 1 2000 ∷ [];
  alive_count = 2;
  probe_order = [];
  probe_index = 0;
  updates = sent 2 (update 2 State.suspect 3) ∷ sent 1 (update 3 State.left 1) ∷ [];
  self_id = node 9;
  self_addr = 1;
  self_port = 4000;
  self_incarnation = 4;
  prng_state = 7;
  rounds_completed = 0;
  state_changes = 5;
  updates_queued = 4;
  updates_piggybacked = 3;
  suspects_expired = 0;
  health_score = 1;
}

pub table-IsQueue : IsQueue 2 table.updates
unfolding mem_eq
table-IsQueue = record {
  room = omega arith;
  fits = omega arith;
  distinct = (refl, (refl, tt));
  modest = omega arith;
}

pub table-IsValid : IsValid table
unfolding mem_eq
table-IsValid = record {
  small = omega arith;
  fits = omega arith;
  distinct = (refl, (refl, (refl, tt)));
  no_self = refl;
  counted = refl;
  queue = table-IsQueue;
  targets = λ k h. absurd (omega arith);
  healthy = omega arith;
}
