-- ===== src/Tests/Broadcast.antt =====
-- The properties of the broadcast tree at concrete inputs.
use libwake.Plumtree.CacheLaws.{IsVictim, cache_insert-effect}
use libwake.Common.{
  replicate, ◌⊎◌, ◌||◌, get_or, ℕ, ◌≡◌, refl, true, false, none, some, List, [], ◌∷◌, ◌++◌, length,
  count_if, keep, take, mem_eq, arith,
}
use libwake.Plumtree.Types.{
  MsgId, Link, MsgType, Result, Peer, Config, Pending, CacheEntry, Plumtree,
}
use libwake.Plumtree.Peers.{add_peer, remove_peer}
use libwake.Plumtree.Cache.{has_msg, cache_insert, max_payload}
use libwake.Plumtree.Pending.{pending_find}
use libwake.Plumtree.Output.{Output, Hooks}
use libwake.Plumtree.Handlers.{recv_gossip, recv_ihave, recv_graft}
use libwake.Plumtree.Tick.{tick}
use libwake.Plumtree.Lifecycle.{create}
use libwake.Plumtree.Invariant.{IsValid}
use libwake.Plumtree.Api
use libwake.Plumtree.Once.{Reception, told, delivers, told-once}
use libwake.Plumtree.Recovery.{lost-is-recovered}
use libwake.Plumtree.Wire.{answer-reaches}
use libwake.Dgram.{Datagram, encode_pt_gossip, decode}
use libwake.Plumtree.Restart.{ihave-restarts, grafts}
use libwake.Plumtree.Sweep.{tick-grafts}
use libwake.Plumtree.Relay.{is_for, is_delivery, recv_gossip-relays}
use libwake.Plumtree.Calls.{IsSound, here, next, add, gossip, created-IsSound}
use libwake.Plumtree.PeerLaws.{peer_of}
use libwake.Plumtree.PeerTable.{add_peer-table, remove_peer-table}
use libwake.Tests.Samples.{node}

abbrev peer : ℕ → Link → Peer
peer k l = record { node_id = node k; last_active_ms = 100; link_type = l }

abbrev held : CacheEntry
held = record { msg_id = 5 ∷ []; received_ms = 100; payload = 1 ∷ 2 ∷ []; occupied = true }

abbrev free : CacheEntry
free = record { msg_id = []; received_ms = 0; payload = []; occupied = false }

abbrev slot : Pending
slot = record { msg_id = 8 ∷ []; from_id = node 2; received_ms = 400; active = true }

abbrev idle : Pending
idle = record { msg_id = []; from_id = []; received_ms = 0; active = false }

abbrev config : Config
config = record {
  max_peers = 4;
  cache_size = 3;
  pending_size = 2;
  lazy_timeout_ms = 5000;
  cache_ttl_ms = 60000;
}

-- node 1 is eager, node 2 lazy; the message 5 is stored and the message 8 awaited from node 2
abbrev tree : Plumtree
tree = record {
  config = config;
  self_id = node 9;
  peers = peer 1 Link.eager ∷ peer 2 Link.lazy ∷ [];
  cache = held ∷ free ∷ free ∷ [];
  cache_count = 1;
  pending = slot ∷ idle ∷ [];
  pending_count = 1;
  messages_received = 1;
  messages_broadcast = 0;
  duplicates = 0;
  grafts_sent = 0;
  prunes_sent = 0;
  repairs = 0;
  cache_evictions = 0;
}

tree-IsValid : IsValid tree
unfolding mem_eq
tree-IsValid = record {
  small = omega arith;
  some_cache = omega arith;
  some_pending = omega arith;
  small_pending = omega arith;
  fits = omega arith;
  distinct = (refl, (refl, tt));
  no_self = refl;
  slots = refl;
  counted = refl;
  pending_slots = refl;
  pending_counted = refl;
  one_each = ((λ a. refl), ((λ a. refl), tt));
}

abbrev hooks : Hooks
hooks = record { can_send = true; can_deliver = true }

abbrev reception : ℕ → ℕ → Reception
reception k m = record { from = node k; id = m ∷ []; payload = 7 ∷ []; now = 600 }

told-once_example :
    count_if (delivers (6 ∷ [])) (told tree hooks (reception 1 6 ∷ reception 2 6 ∷ [])) ≡ 1
unfolding mem_eq
told-once_example =
    told-once tree hooks (6 ∷ []) (reception 1 6 ∷ reception 2 6 ∷ []) tree-IsValid refl
      (omega arith)

-- the same node, known by another identifier
abbrev other : Plumtree
other = record tree { self_id = node 7 }

other-IsValid : IsValid other
unfolding mem_eq
other-IsValid = record {
  small = omega arith;
  some_cache = omega arith;
  some_pending = omega arith;
  small_pending = omega arith;
  fits = omega arith;
  distinct = (refl, (refl, tt));
  no_self = refl;
  slots = refl;
  counted = refl;
  pending_slots = refl;
  pending_counted = refl;
  one_each = ((λ a. refl), ((λ a. refl), tt));
}

lost-is-recovered_example :
    let holder = (recv_gossip other hooks (node 3) (6 ∷ []) (4 ∷ []) 900).1 in
    let asking = tick (recv_ihave tree (node 7) (6 ∷ []) 1000) hooks 6000 in
    let answer = recv_graft holder hooks (node 9) (6 ∷ []) 6000 in
    let end = recv_gossip asking.1 hooks (node 7) (6 ∷ []) (take max_payload (4 ∷ [])) 6010 in
    ((before after : List Output) × (asking.2
        ≡ before ++ Output.send MsgType.graft (node 7) (6 ∷ []) [] ∷ after))
    × (answer.1 ≡ Output.send MsgType.gossip (node 9) (6 ∷ []) (take max_payload (4 ∷ [])) ∷ [])
    × ((rest : List Output) × (end.2
          ≡ Output.deliver (6 ∷ []) (take max_payload (4 ∷ [])) (node 7) ∷ rest))
    × (has_msg end.1 (6 ∷ []) ≡ true)
    × (pending_find end.1 (6 ∷ []) ≡ none)
unfolding mem_eq
lost-is-recovered_example =
    lost-is-recovered other tree hooks (node 3) (6 ∷ []) (4 ∷ []) 900 1000 6000 6010 other-IsValid
      tree-IsValid refl refl (omega arith) (omega arith) refl refl

ihave-restarts_example :
    count_if
      (grafts (6 ∷ []))
      (tick
        (recv_ihave (recv_ihave tree (node 1) (6 ∷ []) 1000) (node 2) (6 ∷ []) 5500)
        hooks
        6500).2
    ≡ 0
unfolding mem_eq
ihave-restarts_example =
    ihave-restarts tree hooks (node 1) (node 2) (6 ∷ []) 1000 5500 6500 tree-IsValid refl
      (omega arith) (omega arith) (omega arith)

-- at 5400 the slot of message 8 is due and node 2 becomes eager; the stored message is younger than 60000
tick-grafts_example :
    let r = tick tree hooks 5400 in
    (r.0 ≡ 1)
    × (r.2 ≡ Output.send MsgType.graft (node 2) (8 ∷ []) [] ∷ [])
    × (r.1.pending ≡ record slot { active = false } ∷ idle ∷ [])
    × (peer_of r.1.peers (node 2) ≡ some (record (peer 2 Link.eager) { last_active_ms = 5400 }))
    × (r.1.cache ≡ held ∷ free ∷ free ∷ [])
unfolding mem_eq
tick-grafts_example =
    tick-grafts tree hooks 5400 (node 2) (omega arith, (omega arith, tt))
      (omega arith, (omega arith, (omega arith, tt))) (omega arith)

-- node 2, lazy, sends the new message 8: node 1, eager, is sent the payload
recv_gossip-relays_example :
    let r = recv_gossip tree hooks (node 2) (8 ∷ []) (7 ∷ []) 600 in
    (r.0 ≡ true)
    × (keep is_delivery r.2 ≡ Output.deliver (8 ∷ []) (7 ∷ []) (node 2) ∷ [])
    × (keep (is_for (node 1)) r.2 ≡ Output.send MsgType.gossip (node 1) (8 ∷ []) (7 ∷ []) ∷ [])
    × (peer_of r.1.peers (node 1) ≡ some (peer 1 Link.eager))
    × (has_msg r.1 (8 ∷ []) ≡ true)
    × (pending_find r.1 (8 ∷ []) ≡ none)
unfolding mem_eq
recv_gossip-relays_example =
    recv_gossip-relays tree hooks (node 2) (8 ∷ []) (7 ∷ []) 600 (node 1) tree-IsValid refl refl

add_peer-table_example :
    let (code, after) = add_peer tree (node 3) 700 in
    (code ≡ Result.ok)
    × (peer_of after.peers (node 3) ≡ some (record (peer 3 Link.eager) { last_active_ms = 700 }))
unfolding mem_eq add_peer
add_peer-table_example = add_peer-table tree (node 3) 700 (node 3)

remove_peer-table_example :
    let (code, after) = remove_peer tree (node 1) in
    (code ≡ Result.ok) × (peer_of after.peers (node 2) ≡ some (peer 2 Link.lazy))
unfolding mem_eq
remove_peer-table_example = remove_peer-table tree (node 1) (node 2) (refl, (refl, tt))

created-IsSound_example :
    IsSound
      (Api.recv_gossip
        (Api.add_peer
          (create
            (record { state = true; peers = true; cache = true; pending = true })
            (some (node 9))
            (some config))
          (some (node 1))
          10).1
        hooks
        (some (node 1))
        (some (6 ∷ []))
        (some (4 ∷ []))
        600).1
created-IsSound_example =
    created-IsSound (record { state = true; peers = true; cache = true; pending = true })
      (some (node 9)) (some config) (record { small = omega arith; small_pending = omega arith })
      (next (next here (add _ (some (node 1)) 10))
        (gossip _ hooks (some (node 1)) (some (6 ∷ [])) (some (4 ∷ [])) 600))

cache_insert-effect_example :
    let after = cache_insert tree (6 ∷ []) (4 ∷ []) 600 in
    (has_msg after (6 ∷ []) ≡ true)
    × (((j : MsgId) → has_msg after j ≡ (mem_eq (6 ∷ []) j || has_msg tree j))
        ⊎ ((i : ℕ) × IsVictim tree i
            × ((j : MsgId)
                → mem_eq (get_or tree.cache i free).msg_id j ≡ false
                → has_msg after j ≡ (mem_eq (6 ∷ []) j || has_msg tree j))))
cache_insert-effect_example = cache_insert-effect tree (6 ∷ []) (4 ∷ []) 600 (omega arith)

abbrev long_id : MsgId
long_id = replicate 16 6

answer-reaches_example :
    let stored : List ℕ = take max_payload (4 ∷ []) in
    let holder = (recv_gossip other hooks (node 3) long_id (4 ∷ []) 900).1 in
    ((recv_graft holder hooks (node 9) long_id 6000).1
      ≡ Output.send MsgType.gossip (node 9) long_id stored ∷ [])
    × ((b : List ℕ) × (d : Datagram) × (rest : List Output) × (encode_pt_gossip 400
            (node 7)
            long_id
            stored
          ≡ some b)
        × (decode b (length b) ≡ some d)
        × ((recv_gossip tree hooks d.sender_id d.msg_id d.payload 6010).2
            ≡ Output.deliver long_id stored (node 7) ∷ rest))
unfolding mem_eq
answer-reaches_example =
    answer-reaches other tree hooks (node 3) long_id (4 ∷ []) 400 900 6000 6010 other-IsValid
      tree-IsValid refl refl refl refl (omega arith) refl refl
