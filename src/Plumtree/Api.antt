-- ===== src/Plumtree/Api.antt =====
-- The entry points of src/wake_plumtree.c that change a state, with their tests for null arguments: a
-- pointer is an option. The bodies stand in the modules beside this one.
use libwake.Common.{ℕ, Option, none, some, List, [], Bool, false}
use libwake.Swim.Types.{NodeId}
use libwake.Plumtree.Types.{MsgId, Result, Plumtree}
use libwake.Plumtree.Output.{Output, Hooks}
use libwake.Plumtree.Peers
use libwake.Plumtree.Handlers
use libwake.Plumtree.Tick
use libwake.Plumtree.Lifecycle

-- A `wake_plumtree_t *`.
abbrev pub Handle : Type 0
Handle = Option Plumtree

unfoldable pub add_peer : Handle → Option NodeId → ℕ → Result × Handle
add_peer (some pt) (some id) now = let r = Peers.add_peer pt id now in (r.0, some r.1)
add_peer h id now = (Result.not_found, h)

unfoldable pub remove_peer : Handle → Option NodeId → Result × Handle
remove_peer (some pt) (some id) = let r = Peers.remove_peer pt id in (r.0, some r.1)
remove_peer h id = (Result.not_found, h)

unfoldable pub broadcast :
    Handle → Hooks → Option MsgId → Option (List ℕ) → ℕ → Handle × List Output
broadcast (some pt) hooks (some id) (some payload) now =
    let r = Handlers.broadcast pt hooks id payload now in (some r.0, r.1)
broadcast h hooks id payload now = (h, [])

unfoldable pub recv_gossip :
    Handle
    → Hooks
    → Option NodeId
    → Option MsgId
    → Option (List ℕ)
    → ℕ
    → Bool × Handle × List Output
recv_gossip (some pt) hooks (some from) (some id) (some payload) now =
    let r = Handlers.recv_gossip pt hooks from id payload now in (r.0, some r.1, r.2)
recv_gossip h hooks from id payload now = (false, h, [])

unfoldable pub recv_ihave : Handle → Option NodeId → Option MsgId → ℕ → Handle
recv_ihave (some pt) (some from) (some id) now = some (Handlers.recv_ihave pt from id now)
recv_ihave h from id now = h

unfoldable pub recv_graft : Handle → Hooks → Option NodeId → Option MsgId → ℕ → Handle × List Output
recv_graft (some pt) hooks (some from) (some id) now =
    let r = Handlers.recv_graft pt hooks from id now in (some r.0, r.1)
recv_graft h hooks from id now = (h, [])

unfoldable pub recv_prune : Handle → Option NodeId → ℕ → Handle
recv_prune (some pt) (some from) now = some (Handlers.recv_prune pt from now)
recv_prune h from now = h

unfoldable pub tick : Handle → Hooks → ℕ → ℕ × Handle × List Output
tick none hooks now = (0, none, [])
tick (some pt) hooks now = let r = Tick.tick pt hooks now in (r.0, some r.1, r.2)

unfoldable pub reset : Handle → Handle
reset none = none
reset (some pt) = some (Lifecycle.reset pt)
