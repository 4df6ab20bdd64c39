-- ===== src/Swim/Types.antt =====
-- The data of src/wake_swim.h. A table of entries and its count (`members` and `member_count`,
-- `updates` and `update_count`, `probe_order` and `probe_size`) is the list of its first `count`
-- elements: the code reads nothing past the count. Padding fields, always zero, are left out.
use Prim.Native.Nat.{ℕ}
use mathlib.Core.List.{List}

-- an Ed25519 public key, 32 bytes
abbrev pub NodeId : Type 0
NodeId = List ℕ

-- wake_swim_result_t
pub data Result : Type 0 where
  ok exists not_found full self stale noop : Result

-- wake_swim_member_t; `state` is the raw byte of the wire, and any value fits in it
pub record Member : Type 0 where
  pub node_id : NodeId
  pub last_change_ms : ℕ
  pub suspect_ms : ℕ
  pub addr : ℕ
  pub incarnation : ℕ
  pub port : ℕ
  pub state : ℕ

-- wake_swim_update_t
pub record Update : Type 0 where
  pub node_id : NodeId
  pub addr : ℕ
  pub port : ℕ
  pub state : ℕ
  pub incarnation : ℕ
  pub piggyback_count : ℕ

-- wake_swim_config_t
pub record Config : Type 0 where
  pub max_members : ℕ
  pub update_queue_size : ℕ
  pub suspicion_mult : ℕ
  pub max_piggybacks : ℕ
  pub protocol_period_ms : ℕ
  pub suspect_timeout_ms : ℕ
  pub prng_seed : ℕ

-- wake_swim_t
pub record Swim : Type 0 where
  pub config : Config
  pub members : List Member
  pub alive_count : ℕ
  pub probe_order : List ℕ
  pub probe_index : ℕ
  pub updates : List Update
  pub self_id : NodeId
  pub self_addr : ℕ
  pub self_port : ℕ
  pub self_incarnation : ℕ
  pub prng_state : ℕ
  pub rounds_completed : ℕ
  pub state_changes : ℕ
  pub updates_queued : ℕ
  pub updates_piggybacked : ℕ
  pub suspects_expired : ℕ
  pub health_score : ℕ
