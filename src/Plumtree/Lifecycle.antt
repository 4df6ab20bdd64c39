-- ===== src/Plumtree/Lifecycle.antt =====
-- wake_plumtree_default_config, create and reset. What the four calls of `calloc` answer is an
-- argument.
use libwake.Common.{ℕ, Bool, Option, none, some, [], ◌==◌, ◌&&◌, if◌then◌else◌, replicate}
use libwake.Swim.Types.{NodeId}
use libwake.Plumtree.Types.{Config, Plumtree}
use libwake.Plumtree.Cache.{zero_entry}
use libwake.Plumtree.Pending.{zero_pending}

unfoldable pub default_config : Config
default_config = record {
  max_peers = 512;
  cache_size = 1024;
  pending_size = 256;
  lazy_timeout_ms = 5000;
  cache_ttl_ms = 60000;
}

abbrev or_default : ℕ → ℕ → ℕ
or_default x d = if x == 0 then d else x

unfoldable pub with_defaults : Config → Config
with_defaults c = record {
  max_peers = or_default c.max_peers 512;
  cache_size = or_default c.cache_size 1024;
  pending_size = or_default c.pending_size 256;
  lazy_timeout_ms = or_default c.lazy_timeout_ms 5000;
  cache_ttl_ms = or_default c.cache_ttl_ms 60000;
}

-- Which of the four tables the allocator gives.
pub record Allocation : Type 0 where
  pub state : Bool
  pub peers : Bool
  pub cache : Bool
  pub pending : Bool

unfoldable pub initial : Config → NodeId → Plumtree
initial c self_id = record {
  config = c;
  self_id = self_id;
  peers = [];
  cache = replicate c.cache_size zero_entry;
  cache_count = 0;
  pending = replicate c.pending_size zero_pending;
  pending_count = 0;
  messages_received = 0;
  messages_broadcast = 0;
  duplicates = 0;
  grafts_sent = 0;
  prunes_sent = 0;
  repairs = 0;
  cache_evictions = 0;
}

abbrev pub config_or_default : Option Config → Config
config_or_default none = default_config
config_or_default (some c) = c

unfoldable pub create : Allocation → Option NodeId → Option Config → Option Plumtree
unfolding default_config with_defaults initial
create mem none cfg = none
create mem (some self_id) cfg =
    if mem.state && (mem.peers && (mem.cache && mem.pending))
    then some (initial (with_defaults (config_or_default cfg)) self_id)
    else none

-- keeps the configuration and the identity
unfoldable pub reset : Plumtree → Plumtree
unfolding initial
reset pt = initial pt.config pt.self_id
