-- ===== src/Plumtree/Output.antt =====
-- What the callbacks are told. A callback is a stretch of the list of outputs, in the order of the
-- calls; a callback that is NULL is told nothing. The callbacks are taken not to call back into the
-- same state.
use libwake.Common.{ℕ, Bool, List, [], ◌∷◌, if◌then◌else◌, mem_eq}
use libwake.Swim.Types.{NodeId}
use libwake.Plumtree.Types.{Link, MsgType, MsgId, Peer}

-- A call of send_fn: a type, a target, a message, and a payload for a GOSSIP; a call of deliver_fn.
pub data Output : Type 0 where
  send : MsgType → NodeId → MsgId → List ℕ → Output
  deliver : MsgId → List ℕ → NodeId → Output

-- Which of send_fn and deliver_fn are given.
pub record Hooks : Type 0 where
  pub can_send : Bool
  pub can_deliver : Bool

abbrev pub when : Bool → List Output → List Output
when b out = if b then out else []

-- One peer of the loops: the message to an eager one, its identifier to a lazy one.
unfoldable pub push_to : Peer → MsgId → List ℕ → Output
push_to p id payload = elim (p.link_type) [
  | Link.eager ↦ send MsgType.gossip p.node_id id payload
  | Link.lazy ↦ send MsgType.ihave p.node_id id []
]

-- the loop of wake_plumtree_broadcast
unfoldable pub push_all : List Peer → MsgId → List ℕ → List Output
unfolding push_to
push_all [] id payload = []
push_all (p ∷ ps) id payload = push_to p id payload ∷ push_all ps id payload

-- the loop of wake_plumtree_recv_gossip, which skips the sender
unfoldable pub push_others : NodeId → List Peer → MsgId → List ℕ → List Output
unfolding push_to
push_others from [] id payload = []
push_others from (p ∷ ps) id payload =
    if mem_eq p.node_id from
    then push_others from ps id payload
    else push_to p id payload ∷ push_others from ps id payload
