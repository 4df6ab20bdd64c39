-- ===== src/Plumtree/Peers.antt =====
-- The peer table: wake_plumtree_add_peer, remove_peer, peer_link, and the moves of a link.
use libwake.Common.{
  ℕ, ◌-◌, Bool, Option, none, some, List, [], ◌∷◌, ◌++◌, leb, ◌==◌, if◌then◌else◌, length, get_or,
  set, take, mem_eq, not,
}
use libwake.Common.Keyed.{find_index}
use libwake.Swim.Types.{NodeId}
use libwake.Plumtree.Types.{Link, Result, Peer, Plumtree}

abbrev pub peer_id : Peer → NodeId
peer_id p = p.node_id

-- the entry after `memset(p, 0, sizeof(*p))`
abbrev pub zero_peer : Peer
zero_peer = record { node_id = []; last_active_ms = 0; link_type = Link.eager }

abbrev pub is_self : Plumtree → NodeId → Bool
is_self pt id = mem_eq pt.self_id id

-- `none` is -1
abbrev pub find_peer : List Peer → NodeId → Option ℕ
find_peer peers id = find_index peer_id peers id

-- promote_eager and demote_lazy
unfoldable pub set_link : Link → NodeId → ℕ → List Peer → List Peer
set_link link id now peers = elim (find_peer peers id) [
  | none ↦ peers
  | some i ↦
      set peers i (record (get_or peers i zero_peer) { link_type = link; last_active_ms = now })
]

unfoldable pub promote_eager : Plumtree → NodeId → ℕ → Plumtree
unfolding set_link
promote_eager pt id now = record pt { peers = set_link Link.eager id now pt.peers }

unfoldable pub demote_lazy : Plumtree → NodeId → ℕ → Plumtree
unfolding set_link
demote_lazy pt id now = record pt { peers = set_link Link.lazy id now pt.peers }

abbrev pub new_peer : NodeId → ℕ → Peer
new_peer id now = record { node_id = id; last_active_ms = now; link_type = Link.eager }

unfoldable pub add_peer : Plumtree → NodeId → ℕ → Result × Plumtree
add_peer pt id now = if is_self pt id then (Result.self, pt) else elim (find_peer pt.peers id) [
  | some i ↦ (Result.exists, pt)
  | none ↦
      if leb pt.config.max_peers (length pt.peers)
      then (Result.full, pt)
      else (Result.ok, record pt { peers = pt.peers ++ new_peer id now ∷ [] })
]

-- The last entry takes the place of the removed one.
unfoldable pub remove_at : ℕ → List Peer → List Peer
remove_at i peers =
    let last = length peers - 1 in
    take last (if not (i == last) then set peers i (get_or peers last zero_peer) else peers)

unfoldable pub remove_peer : Plumtree → NodeId → Result × Plumtree
unfolding remove_at
remove_peer pt id = elim (find_peer pt.peers id) [
  | none ↦ (Result.not_found, pt)
  | some i ↦ (Result.ok, record pt { peers = remove_at i pt.peers })
]

-- `none` is -1
unfoldable pub peer_link : Plumtree → NodeId → Option Link
peer_link pt id = elim (find_peer pt.peers id) [
  | none ↦ none
  | some i ↦ some (get_or pt.peers i zero_peer).link_type
]
