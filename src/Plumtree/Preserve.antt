-- ===== src/Plumtree/Preserve.antt =====
-- Every operation keeps the invariant.
use libwake.Common.{
  ℕ, ◌-◌, ◌≡◌, refl, ◌∙◌, ap, Bool, true, false, Option, none, List, [], ◌∷◌, ◌++◌, leb, ltb, ◌==◌,
  if◌then◌else◌, length, get_or, count_if, mem_eq, mem_eq_comm, arith, Bool-cases, Option-cases,
  inl, inr, inc64, length-append, map,
}
use libwake.Common.Keyed.{
  Distinct-append, find_index-append, find_index-lt, lookup-eq-none, find_index_of_lookup,
}
use libwake.Swim.Types.{NodeId}
use libwake.Plumtree.Types.{MsgId, Peer, Plumtree}
use libwake.Plumtree.Peers.{
  peer_id, zero_peer, find_peer, is_self, promote_eager, new_peer, add_peer, remove_peer, remove_at,
}
use libwake.Plumtree.Cache.{cache_find, cache_insert}
use libwake.Plumtree.Output.{Hooks}
use libwake.Plumtree.Handlers.{
  broadcast, recv_duplicate, recv_new, recv_gossip, recv_ihave, recv_graft,
}
use libwake.Plumtree.Tick.{graft_loop, evict_loop, expire_cache, tick, is_late, is_stale}
use libwake.Plumtree.Invariant.{IsValid}
use libwake.Plumtree.PeerLaws.{remove_at-IsRemoval}
use libwake.Plumtree.PendingLaws.{}
use libwake.Plumtree.TickLaws.{
  promoted, length-promoted, find_peer-promoted, Distinct-promoted, settle, OneEach-settle,
  active-settle, slots-graft_loop, state-graft_loop, spoil, slots-evict_loop, count-evict_loop,
  occupied-spoil, length-map,
}
use libwake.Plumtree.Parts.{
  with_peers, with_cache, with_pending, with_counters, promote_eager-IsValid, demote_lazy-IsValid,
  cache_insert-IsValid, pending_add-IsValid, pending_remove_msg-IsValid,
}

pub add_peer-IsValid :
    (pt : Plumtree) (id : NodeId) (now : ℕ) → IsValid pt → IsValid (add_peer pt id now).1
unfolding add_peer
add_peer-IsValid pt id now v = elim (Bool-cases (is_self pt id)) [
  | inl own ↦ rw own v
  | inr apart ↦ rw apart (elim (Option-cases (find_peer pt.peers id)) [
    | inr (i, found) ↦ rw found v
    | inl absent ↦ rw absent (elim (Bool-cases (leb pt.config.max_peers (length pt.peers))) [
      | inl full ↦ rw full v
      | inr room ↦
          let p = new_peer id now in
          let grown = length-append pt.peers (p ∷ []) in
          let far : mem_eq id pt.self_id ≡ false = mem_eq_comm id pt.self_id ∙ apart in
          rw room (
            with_peers pt (pt.peers ++ p ∷ []) v (ground (arith, room, grown))
              (Distinct-append peer_id pt.peers p absent v.distinct)
              (find_index-append peer_id pt.peers p pt.self_id far ∙ v.no_self))
    ])
  ])
]

none_either : (b : Bool) → ◌≡◌ {A = Option Peer} (if b then none else none) none
none_either true = refl
none_either false = refl

pub remove_peer-IsValid : (pt : Plumtree) (id : NodeId) → IsValid pt → IsValid (remove_peer pt id).1
unfolding remove_peer
remove_peer-IsValid pt id v = elim (Option-cases (find_peer pt.peers id)) [
  | inl absent ↦ rw (absent, remove_peer) v
  | inr (i, found) ↦
      let r =
        remove_at-IsRemoval pt.peers i (find_index-lt peer_id pt.peers id i found) v.distinct in
      let unknown : find_peer (remove_at i pt.peers) pt.self_id ≡ none =
        find_index_of_lookup peer_id _ pt.self_id (
          r.reads pt.self_id
          ∙ ap
              (λ (o : Option Peer).
                if mem_eq (get_or pt.peers i zero_peer).node_id pt.self_id then none else o)
              (lookup-eq-none peer_id pt.peers pt.self_id v.no_self)
          ∙ none_either (mem_eq (get_or pt.peers i zero_peer).node_id pt.self_id)) in
      rw (found, remove_peer)
        (with_peers pt (remove_at i pt.peers) v (omega (arith, r.size, v.fits)) r.distinct unknown)
]

pub broadcast-IsValid :
    (pt : Plumtree) (hooks : Hooks) (id : MsgId) (payload : List ℕ) (now : ℕ)
    → IsValid pt
    → IsValid (broadcast pt hooks id payload now).0
unfolding broadcast
broadcast-IsValid pt hooks id payload now v = elim (Bool-cases (length payload == 0)) [
  | inl empty ↦ rw empty v
  | inr full ↦ rw full (
      let c = cache_insert pt id payload now in
      with_counters c c.messages_received (inc64 c.messages_broadcast) c.duplicates c.grafts_sent
        c.prunes_sent c.repairs c.cache_evictions (cache_insert-IsValid pt id payload now v))
]

pub recv_gossip-IsValid :
    (pt : Plumtree) (hooks : Hooks) (from : NodeId) (id : MsgId) (payload : List ℕ) (now : ℕ)
    → IsValid pt
    → IsValid (recv_gossip pt hooks from id payload now).1
unfolding recv_gossip recv_duplicate recv_new
recv_gossip-IsValid pt hooks from id payload now v =
    let c = record pt { messages_received = inc64 pt.messages_received } in
    let vc : IsValid c =
      with_counters pt (inc64 pt.messages_received) pt.messages_broadcast pt.duplicates
        pt.grafts_sent pt.prunes_sent pt.repairs pt.cache_evictions v in
    elim (Option-cases (cache_find c id)) [
      | inl new ↦
          rw (new, recv_gossip)
            (promote_eager-IsValid _ from now (
              pending_remove_msg-IsValid (cache_insert c id payload now) id
                (cache_insert-IsValid c id payload now vc)))
      | inr (i, seen) ↦
          rw (seen, recv_gossip)
            (demote_lazy-IsValid _ from now (
              with_counters c c.messages_received c.messages_broadcast (inc64 c.duplicates)
                c.grafts_sent (inc64 c.prunes_sent) c.repairs c.cache_evictions vc))
    ]

pub recv_ihave-IsValid :
    (pt : Plumtree) (from : NodeId) (id : MsgId) (now : ℕ)
    → IsValid pt
    → IsValid (recv_ihave pt from id now)
unfolding recv_ihave
recv_ihave-IsValid pt from id now v = elim (Option-cases (cache_find pt id)) [
  | inl unknown ↦ rw (unknown, recv_ihave) (pending_add-IsValid pt id from now v)
  | inr (i, known) ↦ rw (known, recv_ihave) v
]

pub recv_graft-IsValid :
    (pt : Plumtree) (hooks : Hooks) (from : NodeId) (id : MsgId) (now : ℕ)
    → IsValid pt
    → IsValid (recv_graft pt hooks from id now).0
unfolding recv_graft
recv_graft-IsValid pt hooks from id now v =
    let p = promote_eager pt from now in
    with_counters p p.messages_received p.messages_broadcast p.duplicates p.grafts_sent
      p.prunes_sent (inc64 p.repairs) p.cache_evictions (promote_eager-IsValid pt from now v)

pub expire_cache-IsValid : (pt : Plumtree) (now : ℕ) → IsValid pt → IsValid (expire_cache pt now)
unfolding expire_cache
expire_cache-IsValid pt now v =
    let ttl = pt.config.cache_ttl_ms in
    let swept = evict_loop ttl now pt.cache pt.cache_count pt.cache_evictions in
    let slots = slots-evict_loop ttl now pt.cache pt.cache_count pt.cache_evictions in
    let count = count-evict_loop ttl now pt.cache pt.cache_count pt.cache_evictions in
    let balance = occupied-spoil ttl now pt.cache in
    let counted = v.counted in
    elim (Bool-cases (ltb 0 ttl)) [
      | inr off ↦ rw off v
      | inl timed ↦
          rw (timed, slots, count)
            (with_counters
              (record pt {
                cache = map (spoil ttl now) pt.cache;
                cache_count = pt.cache_count - count_if (is_stale ttl now) pt.cache;
              })
              pt.messages_received pt.messages_broadcast pt.duplicates pt.grafts_sent pt.prunes_sent
              pt.repairs swept.2
              (with_cache pt (map (spoil ttl now) pt.cache)
                (pt.cache_count - count_if (is_stale ttl now) pt.cache) v
                (length-map (spoil ttl now) pt.cache ∙ v.slots) (omega (arith, balance, counted))))
    ]

pub tick-IsValid :
    (pt : Plumtree) (hooks : Hooks) (now : ℕ) → IsValid pt → IsValid (tick pt hooks now).1
unfolding tick
tick-IsValid pt hooks now v =
    let timeout = pt.config.lazy_timeout_ms in
    let peers = promoted timeout now pt.pending pt.peers in
    let slots = map (settle timeout now) pt.pending in
    let left = pt.pending_count - count_if (is_late timeout now) pt.pending in
    let g = (graft_loop timeout now hooks pt.pending pt).1.grafts_sent in
    let balance = active-settle timeout now pt.pending in
    let counted = v.pending_counted in
    let swept = graft_loop timeout now hooks pt.pending pt in
    expire_cache-IsValid (record swept.1 { pending = swept.0 }) now
      (rw
        (
          slots-graft_loop timeout now hooks pt.pending pt,
          state-graft_loop timeout now hooks pt.pending pt,
        )
        (with_counters (record pt { peers = peers; pending = slots; pending_count = left })
          pt.messages_received pt.messages_broadcast pt.duplicates g pt.prunes_sent pt.repairs
          pt.cache_evictions
          (with_pending (record pt { peers = peers }) slots left
            (with_peers pt peers v
              (omega (arith, v.fits, length-promoted timeout now pt.pending pt.peers))
              (Distinct-promoted timeout now pt.pending pt.peers v.distinct)
              (find_peer-promoted timeout now pt.pending pt.peers pt.self_id ∙ v.no_self))
            (length-map (settle timeout now) pt.pending ∙ v.pending_slots)
            (omega (arith, balance, counted)) (OneEach-settle timeout now pt.pending v.one_each))))
