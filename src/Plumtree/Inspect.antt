-- ===== src/Plumtree/Inspect.antt =====
-- wake_plumtree_stats and the names.
use libwake.Common.{ℕ, length, count_if, Bool, true, false}
use Prim.Native.String.{String}
use libwake.Plumtree.Types.{Link, MsgType, Result, Peer, Plumtree}

-- wake_plumtree_stats_t
pub record Stats : Type 0 where
  pub peer_count : ℕ
  pub eager_count : ℕ
  pub lazy_count : ℕ
  pub cache_entries : ℕ
  pub pending_ihaves : ℕ
  pub messages_received : ℕ
  pub messages_broadcast : ℕ
  pub duplicates : ℕ
  pub grafts_sent : ℕ
  pub prunes_sent : ℕ
  pub repairs : ℕ
  pub cache_evictions : ℕ

abbrev pub is_eager : Peer → Bool
is_eager p = elim (p.link_type) [ Link.eager ↦ true | Link.lazy ↦ false ]

abbrev pub is_lazy : Peer → Bool
is_lazy p = elim (p.link_type) [ Link.eager ↦ false | Link.lazy ↦ true ]

-- the loop counts every peer on one side or the other; no table has 2 ^ 32 entries
abbrev pub stats : Plumtree → Stats
stats pt = record {
  peer_count = length pt.peers;
  eager_count = count_if is_eager pt.peers;
  lazy_count = count_if is_lazy pt.peers;
  cache_entries = pt.cache_count;
  pending_ihaves = pt.pending_count;
  messages_received = pt.messages_received;
  messages_broadcast = pt.messages_broadcast;
  duplicates = pt.duplicates;
  grafts_sent = pt.grafts_sent;
  prunes_sent = pt.prunes_sent;
  repairs = pt.repairs;
  cache_evictions = pt.cache_evictions;
}

abbrev pub link_name : Link → String
link_name Link.eager = "EAGER"
link_name Link.lazy = "LAZY"

abbrev pub msg_type_name : MsgType → String
msg_type_name MsgType.gossip = "GOSSIP"
msg_type_name MsgType.ihave = "IHAVE"
msg_type_name MsgType.graft = "GRAFT"
msg_type_name MsgType.prune = "PRUNE"

abbrev pub result_name : Result → String
result_name Result.ok = "OK"
result_name Result.exists = "EXISTS"
result_name Result.not_found = "NOT_FOUND"
result_name Result.full = "FULL"
result_name Result.self = "SELF"
result_name Result.dup = "DUP"
