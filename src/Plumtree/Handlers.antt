-- ===== src/Plumtree/Handlers.antt =====
-- Broadcasting and the handlers of received messages. Each returns the state, what the callbacks are
-- told, and for a GOSSIP whether the message is new. The tests for null pointers stand in
-- Plumtree/Api.antt.
use libwake.Common.{
  ℕ, Bool, true, false, none, some, List, [], ◌∷◌, ◌++◌, ◌==◌, if◌then◌else◌, get_or, length, inc64,
}
use libwake.Swim.Types.{NodeId}
use libwake.Plumtree.Types.{MsgType, MsgId, Plumtree}
use libwake.Plumtree.Peers.{promote_eager, demote_lazy}
use libwake.Plumtree.Cache.{cache_find, cache_insert, zero_entry}
use libwake.Plumtree.Pending.{pending_add, pending_remove_msg}
use libwake.Plumtree.Output.{Output, Hooks, when, push_all, push_others}

unfoldable pub broadcast : Plumtree → Hooks → MsgId → List ℕ → ℕ → Plumtree × List Output
broadcast pt hooks id payload now =
    if length payload == 0
    then (pt, [])
    else (let cached = cache_insert pt id payload now in
        (
          record cached { messages_broadcast = inc64 cached.messages_broadcast },
          when hooks.can_send (push_all cached.peers id payload),
        ))

-- a message that is in the cache: the sender is pruned
unfoldable pub recv_duplicate : Plumtree → Hooks → NodeId → MsgId → ℕ → Plumtree × List Output
recv_duplicate pt hooks from id now =
    let counted = record pt {
      duplicates = inc64 pt.duplicates;
      prunes_sent = inc64 pt.prunes_sent;
    } in
    (demote_lazy counted from now, when hooks.can_send (Output.send MsgType.prune from id [] ∷ []))

-- a new message: cached, no longer awaited, delivered and passed on
unfoldable pub recv_new : Plumtree → Hooks → NodeId → MsgId → List ℕ → ℕ → Plumtree × List Output
recv_new pt hooks from id payload now =
    let cached = cache_insert pt id payload now in
    let settled = pending_remove_msg cached id in
    let promoted = promote_eager settled from now in
    (
      promoted,
      when hooks.can_deliver (Output.deliver id payload from ∷ [])
          ++ when hooks.can_send (push_others from promoted.peers id payload),
    )

unfoldable pub recv_gossip :
    Plumtree → Hooks → NodeId → MsgId → List ℕ → ℕ → Bool × Plumtree × List Output
unfolding recv_duplicate recv_new
recv_gossip pt hooks from id payload now =
    let counted = record pt { messages_received = inc64 pt.messages_received } in
    elim (cache_find counted id) [
      | some i ↦ let r = recv_duplicate counted hooks from id now in (false, r.0, r.1)
      | none ↦ let r = recv_new counted hooks from id payload now in (true, r.0, r.1)
    ]

unfoldable pub recv_ihave : Plumtree → NodeId → MsgId → ℕ → Plumtree
recv_ihave pt from id now = elim (cache_find pt id) [
  | some i ↦ pt
  | none ↦ pending_add pt id from now
]

unfoldable pub recv_graft : Plumtree → Hooks → NodeId → MsgId → ℕ → Plumtree × List Output
recv_graft pt hooks from id now =
    let promoted = promote_eager pt from now in
    let answer : List Output = elim (cache_find promoted id) [
      | none ↦ []
      | some i ↦
          Output.send MsgType.gossip from id (get_or promoted.cache i zero_entry).payload ∷ []
    ] in
    (record promoted { repairs = inc64 promoted.repairs }, when hooks.can_send answer)

unfoldable pub recv_prune : Plumtree → NodeId → ℕ → Plumtree
recv_prune pt from now = demote_lazy pt from now
