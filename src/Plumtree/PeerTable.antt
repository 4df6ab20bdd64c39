-- ===== src/Plumtree/PeerTable.antt =====
-- Adding and removing a peer, as operations on a map.
use libwake.Common.{
  ℕ, ◌≡◌, refl, sym, ◌∙◌, ap, none, some, leb, if◌then◌else◌, length, mem_eq, mem_eq→eq, Bool-cases,
  Option-cases, inl, inr,
}
use libwake.Common.Keyed.{Distinct, lookup-find_index, find_index-lt, lookup-append, lookup-eq-none}
use libwake.Swim.Types.{NodeId}
use libwake.Plumtree.Types.{Link, Result, Plumtree}
use libwake.Plumtree.Peers.{peer_id, zero_peer, find_peer, is_self, new_peer, add_peer, remove_peer}
use libwake.Plumtree.PeerLaws.{peer_of, remove_at-IsRemoval}

-- Adding a peer: this node, a known node and a full table are refused with their codes and change
-- nothing; any other node becomes an eager peer, and every other node reads as before.
pub add_peer-table :
    (pt : Plumtree) (id : NodeId) (now : ℕ) (j : NodeId)
    → let (code, after) = add_peer pt id now in
      (code ≡ (
        if is_self pt id then Result.self else (elim (peer_of pt.peers id) [
          | some p ↦ Result.exists
          | none ↦ if leb pt.config.max_peers (length pt.peers) then Result.full else Result.ok
        ])))
      × (peer_of after.peers j ≡ (elim code [
        | Result.ok ↦
            if mem_eq id j
            then some (record { node_id = id; last_active_ms = now; link_type = Link.eager })
            else peer_of pt.peers j
        | _ ↦ peer_of pt.peers j
      ]))
unfolding add_peer
add_peer-table pt id now j = elim (Bool-cases (is_self pt id)) [
  | inl own ↦ rw own (refl, refl)
  | inr apart ↦ rw apart (elim (Option-cases (find_peer pt.peers id)) [
    | inr (i, found) ↦
        rw (found, (lookup-find_index peer_id pt.peers id i zero_peer found).0) (refl, refl)
    | inl absent ↦
        rw (absent, lookup-eq-none peer_id pt.peers id absent)
          (elim (Bool-cases (leb pt.config.max_peers (length pt.peers))) [
            | inl full ↦ rw full (refl, refl)
            | inr room ↦ rw room (refl, lookup-append peer_id pt.peers (new_peer id now) j absent)
          ])
  ])
]

-- Removing a peer: an unknown node is refused; a known one is forgotten, whatever its place in a
-- table without repetition, and every other node reads as before.
pub remove_peer-table :
    (pt : Plumtree) (id : NodeId) (j : NodeId)
    → Distinct peer_id pt.peers
    → let (code, after) = remove_peer pt id in
      (code ≡ (elim (peer_of pt.peers id) [ none ↦ Result.not_found | some p ↦ Result.ok ]))
      × (peer_of after.peers j ≡ (if mem_eq id j then none else peer_of pt.peers j))
unfolding remove_peer
remove_peer-table pt id j d = elim (Option-cases (find_peer pt.peers id)) [
  | inl absent ↦
      let unknown = lookup-eq-none peer_id pt.peers id absent in
      rw (absent, remove_peer, unknown)
        (
          refl,
          elim (Bool-cases (mem_eq id j)) [
            | inl here ↦ rw here (ap (peer_of pt.peers) (sym (mem_eq→eq id j here)) ∙ unknown)
            | inr other ↦ rw other refl
          ],
        )
  | inr (i, found) ↦
      let at = lookup-find_index peer_id pt.peers id i zero_peer found in
      let r = remove_at-IsRemoval pt.peers i (find_index-lt peer_id pt.peers id i found) d in
      rw (found, remove_peer, at.0)
        (
          refl,
          r.reads j ∙ ap (λ (k : NodeId). if mem_eq k j then none else peer_of pt.peers j) at.1,
        )
]
