-- ===== src/Swim/Lifecycle.antt =====
-- Configuration and lifecycle in src/wake_swim.c. The allocator is the environment's: what each of
-- the four `calloc` calls returns is an argument.
pub mod Preserve
use libwake.Common.{
  ℕ, ◌^◌, bit_xor, Option, none, some, List, [], Bool, true, false, ◌==◌, ◌&&◌, if◌then◌else◌,
}
use libwake.Swim.Types.{NodeId, Config, Swim}

unfoldable pub default_config : Config
default_config = record {
  max_members = 512;
  update_queue_size = 256;
  suspicion_mult = 5;
  max_piggybacks = 8;
  protocol_period_ms = 1000;
  suspect_timeout_ms = 0;
  prng_seed = 0;
}

-- `if (x == 0) x = d`
abbrev pub or_default : ℕ → ℕ → ℕ
or_default x d = if x == 0 then d else x

pub enforce_minimums : Config → Config
enforce_minimums c = record c {
  max_members = or_default c.max_members 512;
  update_queue_size = or_default c.update_queue_size 256;
  suspicion_mult = or_default c.suspicion_mult 5;
  max_piggybacks = or_default c.max_piggybacks 8;
  protocol_period_ms = or_default c.protocol_period_ms 1000;
}

-- What the allocator answers: the address of the state, if any, and whether the tables were given.
pub record Allocation : Type 0 where
  pub address : Option ℕ
  pub members : Bool
  pub probe_order : Bool
  pub updates : Bool

-- the seed, or a value taken from the address of the state
pub seed : Config → ℕ → ℕ
seed config address =
    if config.prng_seed == 0 then bit_xor address 0xDEADBEEFCAFE else config.prng_seed

pub initial : Config → ℕ → NodeId → ℕ → ℕ → Swim
unfolding seed
initial config address self_id self_addr self_port = record {
  config = config;
  members = [];
  alive_count = 0;
  probe_order = [];
  probe_index = 0;
  updates = [];
  self_id = self_id;
  self_addr = self_addr;
  self_port = self_port;
  self_incarnation = 0;
  prng_state = seed config address;
  rounds_completed = 0;
  state_changes = 0;
  updates_queued = 0;
  updates_piggybacked = 0;
  suspects_expired = 0;
  health_score = 0;
}

abbrev pub config_or_default : Option Config → Config
config_or_default none = default_config
config_or_default (some c) = c

pub create : Allocation → Option NodeId → ℕ → ℕ → Option Config → Option Swim
unfolding default_config enforce_minimums initial
create mem none self_addr self_port cfg = none
create mem (some self_id) self_addr self_port cfg = elim (mem.address) [
  | none ↦ none
  | some address ↦
      if mem.members && (mem.probe_order && mem.updates)
      then (let config = enforce_minimums (config_or_default cfg) in
          some (initial config address self_id self_addr self_port))
      else none
]

-- keeps the configuration, the identity, the incarnation and the generator
unfoldable pub reset : Swim → Swim
reset sw = record sw {
  members = [];
  alive_count = 0;
  probe_order = [];
  probe_index = 0;
  updates = [];
  rounds_completed = 0;
  state_changes = 0;
  updates_queued = 0;
  updates_piggybacked = 0;
  suspects_expired = 0;
  health_score = 0;
}
