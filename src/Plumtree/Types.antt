-- ===== src/Plumtree/Types.antt =====
-- The types of src/wake_plumtree.h. The padding fields are left out; an array of peers with its
-- counter is a list, and the two fixed tables are lists of all their slots.
use libwake.Common.{ℕ, Bool, List, mem_eq}
use libwake.Swim.Types.{NodeId}

-- wake_plumtree_msg_id_t, sixteen bytes
abbrev pub MsgId : Type 0
MsgId = List ℕ

abbrev pub msg_id_eq : MsgId → MsgId → Bool
msg_id_eq a b = mem_eq a b

-- wake_plumtree_link_t
pub data Link : Type 0 where
  eager : Link
  lazy : Link

-- wake_plumtree_msg_type_t
pub data MsgType : Type 0 where
  gossip : MsgType
  ihave : MsgType
  graft : MsgType
  prune : MsgType

-- wake_plumtree_result_t; no function returns WAKE_PT_DUP
pub data Result : Type 0 where
  ok : Result
  exists : Result
  not_found : Result
  full : Result
  self : Result
  dup : Result

pub record Peer : Type 0 where
  pub node_id : NodeId
  pub last_active_ms : ℕ
  pub link_type : Link

-- The bytes of the payload up to `payload_len`; those behind are zero.
pub record CacheEntry : Type 0 where
  pub msg_id : MsgId
  pub received_ms : ℕ
  pub payload : List ℕ
  pub occupied : Bool

pub record Pending : Type 0 where
  pub msg_id : MsgId
  pub from_id : NodeId
  pub received_ms : ℕ
  pub active : Bool

pub record Config : Type 0 where
  pub max_peers : ℕ
  pub cache_size : ℕ
  pub pending_size : ℕ
  pub lazy_timeout_ms : ℕ
  pub cache_ttl_ms : ℕ

pub record Plumtree : Type 0 where
  pub config : Config
  pub self_id : NodeId
  pub peers : List Peer
  pub cache : List CacheEntry
  pub cache_count : ℕ
  pub pending : List Pending
  pub pending_count : ℕ
  pub messages_received : ℕ
  pub messages_broadcast : ℕ
  pub duplicates : ℕ
  pub grafts_sent : ℕ
  pub prunes_sent : ℕ
  pub repairs : ℕ
  pub cache_evictions : ℕ
