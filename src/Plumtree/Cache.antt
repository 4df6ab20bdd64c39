-- ===== src/Plumtree/Cache.antt =====
-- The message cache: cache_find, cache_insert, wake_plumtree_has_msg.
use libwake.Common.{
  ℕ, Bool, true, false, Option, none, some, List, [], ◌∷◌, ◌&&◌, not, set, take, inc32, inc64,
}
use libwake.Common.Slots.{find_first, oldest_from}
use libwake.Plumtree.Types.{MsgId, msg_id_eq, CacheEntry, Plumtree}

abbrev pub max_payload : ℕ
max_payload = 256

abbrev pub zero_entry : CacheEntry
zero_entry = record { msg_id = []; received_ms = 0; payload = []; occupied = false }

abbrev pub is_occupied : CacheEntry → Bool
is_occupied e = e.occupied

abbrev pub is_free : CacheEntry → Bool
is_free e = not e.occupied

abbrev pub cached_at : CacheEntry → ℕ
cached_at e = e.received_ms

abbrev pub holds : MsgId → CacheEntry → Bool
holds id e = e.occupied && msg_id_eq e.msg_id id

-- the index of the entry; `none` is NULL
abbrev pub cache_find : Plumtree → MsgId → Option ℕ
cache_find pt id = find_first (holds id) pt.cache

-- the stored entry; the payload is clamped to its slot
abbrev pub new_entry : MsgId → List ℕ → ℕ → CacheEntry
new_entry id payload now = record {
  msg_id = id;
  received_ms = now;
  payload = take max_payload payload;
  occupied = true;
}

-- the eviction loop, from the second slot on, with the first as the oldest so far
unfoldable pub oldest_entry : List CacheEntry → ℕ
oldest_entry [] = 0
oldest_entry (e ∷ es) = elim (oldest_from is_occupied cached_at es 1 (some (0, cached_at e))) [
  | none ↦ 0
  | some (i, ms) ↦ i
]

unfoldable pub cache_insert : Plumtree → MsgId → List ℕ → ℕ → Plumtree
unfolding oldest_entry
cache_insert pt id payload now = elim (find_first is_free pt.cache) [
  | some i ↦ record pt {
    cache = set pt.cache i (new_entry id payload now);
    cache_count = inc32 pt.cache_count;
  }
  | none ↦ record pt {
    cache = set pt.cache (oldest_entry pt.cache) (new_entry id payload now);
    cache_evictions = inc64 pt.cache_evictions;
  }
]

abbrev pub has_msg : Plumtree → MsgId → Bool
has_msg pt id = elim (cache_find pt id) [ none ↦ false | some i ↦ true ]
