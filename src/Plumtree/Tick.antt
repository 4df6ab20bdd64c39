-- ===== src/Plumtree/Tick.antt =====
-- wake_plumtree_tick: GRAFTs for pending IHAVEs that have timed out, and expiry of the cache.
use libwake.Common.{
  ℕ, ◌+◌, Bool, false, List, [], ◌∷◌, ◌++◌, ◌&&◌, ltb, leb, if◌then◌else◌, inc64, sub64,
}
use libwake.Plumtree.Types.{MsgType, Pending, CacheEntry, Plumtree}
use libwake.Plumtree.Peers.{promote_eager}
use libwake.Plumtree.Pending.{dec}
use libwake.Plumtree.Output.{Output, Hooks, when}

abbrev pub is_late : ℕ → ℕ → Pending → Bool
is_late timeout now p = p.active && leb timeout (sub64 now p.received_ms)

-- A round of the first loop: the slot, the state, and what is sent.
unfoldable pub graft_one : ℕ → ℕ → Hooks → Pending → Plumtree → Pending × Plumtree × List Output
graft_one timeout now hooks p pt =
    if is_late timeout now p
    then (let promoted = promote_eager pt p.from_id now in
        (
          record p { active = false },
          record promoted {
            grafts_sent = inc64 promoted.grafts_sent;
            pending_count = dec promoted.pending_count;
          },
          when hooks.can_send (Output.send MsgType.graft p.from_id p.msg_id [] ∷ []),
        ))
    else (p, pt, [])

-- The loop: the slots, the state (its `pending` not yet written back), what is sent, and how many
-- GRAFTs there are.
unfoldable pub graft_loop :
    ℕ → ℕ → Hooks → List Pending → Plumtree → List Pending × Plumtree × List Output × ℕ
unfolding graft_one
graft_loop timeout now hooks [] pt = ([], pt, [], 0)
graft_loop timeout now hooks (p ∷ ps) pt =
    let one = graft_one timeout now hooks p pt in
    let rest = graft_loop timeout now hooks ps one.1 in
    (one.0 ∷ rest.0, rest.1, one.2 ++ rest.2, (if is_late timeout now p then 1 else 0) + rest.3)

abbrev pub is_stale : ℕ → ℕ → CacheEntry → Bool
is_stale ttl now e = e.occupied && leb ttl (sub64 now e.received_ms)

-- The second loop over the slots; `n` is cache_count and `v` cache_evictions.
unfoldable pub evict_loop : ℕ → ℕ → List CacheEntry → ℕ → ℕ → List CacheEntry × ℕ × ℕ
evict_loop ttl now [] n v = ([], n, v)
evict_loop ttl now (e ∷ es) n v =
    let stale = is_stale ttl now e in
    let rest = evict_loop ttl now es (if stale then dec n else n) (if stale then inc64 v else v) in
    ((if stale then record e { occupied = false } else e) ∷ rest.0, rest.1, rest.2)

unfoldable pub expire_cache : Plumtree → ℕ → Plumtree
unfolding evict_loop
expire_cache pt now =
    if ltb 0 pt.config.cache_ttl_ms
    then (let swept =
          evict_loop pt.config.cache_ttl_ms now pt.cache pt.cache_count pt.cache_evictions in
        record pt { cache = swept.0; cache_count = swept.1; cache_evictions = swept.2 })
    else pt

unfoldable pub tick : Plumtree → Hooks → ℕ → ℕ × Plumtree × List Output
unfolding graft_loop expire_cache
tick pt hooks now =
    let swept = graft_loop pt.config.lazy_timeout_ms now hooks pt.pending pt in
    (swept.3, expire_cache (record swept.1 { pending = swept.0 }) now, swept.2)
