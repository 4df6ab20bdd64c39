-- ===== src/Plumtree/Invariant.antt =====
-- The representation invariant of `wake_plumtree_t`.
use libwake.Common.{◌≡◌, ◌≤◌, ◌<◌, ◌^◌, none, List, [], ◌∷◌, length, count_if, true}
use libwake.Common.Keyed.{find_index, Distinct}
use libwake.Common.Slots.{find_first}
use libwake.Plumtree.Types.{Pending, Plumtree}
use libwake.Plumtree.Peers.{peer_id}
use libwake.Plumtree.Cache.{is_occupied}
use libwake.Plumtree.Pending.{is_active, awaits}

-- No two active slots await one message.
abbrev pub OneEach : List Pending → Type 0
OneEach [] = Unit
OneEach (p ∷ ps) = (p.active ≡ true → find_first (awaits p.msg_id) ps ≡ none) × OneEach ps

pub record IsValid (pt : Plumtree) : Type 0 where
  pub small : pt.config.cache_size < 2 ^ 16
  pub some_cache : 0 < pt.config.cache_size
  pub some_pending : 0 < pt.config.pending_size
  pub small_pending : pt.config.pending_size < 2 ^ 16
  pub fits : length pt.peers ≤ pt.config.max_peers
  pub distinct : Distinct peer_id pt.peers
  pub no_self : find_index peer_id pt.peers pt.self_id ≡ none
  pub slots : length pt.cache ≡ pt.config.cache_size
  pub counted : pt.cache_count ≡ count_if is_occupied pt.cache
  pub pending_slots : length pt.pending ≡ pt.config.pending_size
  pub pending_counted : pt.pending_count ≡ count_if is_active pt.pending
  pub one_each : OneEach pt.pending
