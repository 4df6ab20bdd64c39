-- ===== src/Plumtree/Relay.antt =====
-- What a received GOSSIP makes a node tell each other node.
use libwake.Common.{
  ℕ, ◌≡◌, refl, sym, ◌∙◌, ap, Bool, true, false, not, Option, none, some, List, [], ◌∷◌, ◌++◌,
  if◌then◌else◌, keep, ◌⊎◌, mem_eq, mem_eq→eq, mem_eq_comm, arith, Bool-cases, Option-cases, inl,
  inr,
}
use libwake.Common.Keyed.{lookup, Distinct, lookup-eq-none}
use libwake.Swim.Types.{NodeId}
use libwake.Plumtree.Types.{Link, MsgType, MsgId, Peer, CacheEntry, Plumtree}
use libwake.Plumtree.Peers.{peer_id, set_link}
use libwake.Plumtree.Cache.{has_msg}
use libwake.Plumtree.Pending.{pending_find, awaits}
use libwake.Common.Slots.{find_first}
use libwake.Plumtree.Output.{Output, Hooks, when, push_to, push_others}
use libwake.Plumtree.Handlers.{recv_gossip}
use libwake.Plumtree.Invariant.{IsValid}
use libwake.Plumtree.PeerLaws.{peer_of, peer_of-set_link, Distinct-set_link}
use libwake.Plumtree.CacheLaws.{is_cached}
use libwake.Plumtree.Delivery.{recv_gossip-new, recv_gossip-seen}

-- Is this a message to the node?
abbrev pub is_for : NodeId → Output → Bool
is_for j (Output.send t to id payload) = mem_eq to j
is_for j (Output.deliver id payload from) = false

-- What a node is sent of a new message by its link to it.
abbrev pub by_link : Option Peer → NodeId → MsgId → List ℕ → List Output
by_link none j id payload = []
by_link (some p) j id payload = elim (p.link_type) [
  | Link.eager ↦ Output.send MsgType.gossip j id payload ∷ []
  | Link.lazy ↦ Output.send MsgType.ihave j id [] ∷ []
]

abbrev pub others_told : NodeId → List Peer → NodeId → MsgId → List ℕ → List Output
others_told from peers j id payload =
    if mem_eq from j then [] else by_link (lookup peer_id peers j) j id payload

Link-cases : (l : Link) → (l ≡ Link.eager) ⊎ (l ≡ Link.lazy)
Link-cases Link.eager = inl refl
Link-cases Link.lazy = inr refl

is_for-push_to :
    (p : Peer) (id : MsgId) (payload : List ℕ) (j : NodeId)
    → is_for j (push_to p id payload) ≡ mem_eq p.node_id j
unfolding push_to
is_for-push_to p id payload j = elim (Link-cases p.link_type) [
  | inl e ↦ rw e refl
  | inr e ↦ rw e refl
]

push_to-by_link :
    (p : Peer) (id : MsgId) (payload : List ℕ) (j : NodeId)
    → p.node_id ≡ j
    → push_to p id payload ∷ [] ≡ by_link (some p) j id payload
unfolding push_to
push_to-by_link p id payload j same = elim (Link-cases p.link_type) [
  | inl e ↦ rw e (ap (λ (k : NodeId). Output.send MsgType.gossip k id payload ∷ []) same)
  | inr e ↦ rw e (ap (λ (k : NodeId). Output.send MsgType.ihave k id [] ∷ []) same)
]

push_others-told :
    (from : NodeId) (peers : List Peer) (id : MsgId) (payload : List ℕ) (j : NodeId)
    → Distinct peer_id peers
    → keep (is_for j) (push_others from peers id payload) ≡ others_told from peers j id payload
unfolding push_others
push_others-told from [] id payload j d = ground arith
push_others-told from (p ∷ ps) id payload j (n, d) =
    let ih = push_others-told from ps id payload j d in
    let here = is_for-push_to p id payload j in
    elim (Bool-cases (mem_eq p.node_id j)) [
      | inr apart ↦
          let miss = here ∙ apart in
          elim (Bool-cases (mem_eq p.node_id from)) [
            | inl own ↦ rw (own, apart) ih
            | inr other ↦ rw (other, miss, apart) ih
          ]
      | inl found ↦
          let same = mem_eq→eq p.node_id j found in
          let flip = mem_eq_comm from j ∙ ap (λ (k : NodeId). mem_eq k from) (sym same) in
          let last : lookup peer_id ps j ≡ none =
            ap (lookup peer_id ps) (sym same) ∙ lookup-eq-none peer_id ps p.node_id n in
          elim (Bool-cases (mem_eq p.node_id from)) [
            | inl own ↦ rw (own, flip ∙ own) (ih ∙ rw (flip ∙ own) refl)
            | inr other ↦
                let rest : keep (is_for j) (push_others from ps id payload) ≡ [] =
                  ih ∙ rw (flip ∙ other, last) refl in
                rw (other, here ∙ found, rest, flip ∙ other, found)
                  (push_to-by_link p id payload j same)
          ]
    ]

-- Is this a delivery to the host?
abbrev pub is_delivery : Output → Bool
is_delivery (Output.send t to id payload) = false
is_delivery (Output.deliver id payload from) = true

keep-push_to :
    (p : Peer) (id : MsgId) (payload : List ℕ) → is_delivery (push_to p id payload) ≡ false
unfolding push_to
keep-push_to p id payload = elim (Link-cases p.link_type) [ inl e ↦ rw e refl | inr e ↦ rw e refl ]

keep-push_others :
    (from : NodeId) (peers : List Peer) (id : MsgId) (payload : List ℕ)
    → keep is_delivery (push_others from peers id payload) ≡ []
unfolding push_others
keep-push_others from [] id payload = refl
keep-push_others from (p ∷ ps) id payload =
    let ih = keep-push_others from ps id payload in
    elim (Bool-cases (mem_eq p.node_id from)) [
      | inl own ↦ rw own ih
      | inr other ↦ rw (other, keep-push_to p id payload) ih
    ]

-- A peer that a message has come from, with the link that it gets.
abbrev pub heard_from : Link → ℕ → Option Peer → Option Peer
heard_from link now none = none
heard_from link now (some p) = some (record p { link_type = link; last_active_ms = now })

-- What the sender of a GOSSIP is told.
abbrev pub sender_told : NodeId → NodeId → MsgId → List Output
sender_told from j id = if mem_eq from j then Output.send MsgType.prune j id [] ∷ [] else []

pub peer_of-heard :
    (link : Link) (from : NodeId) (now : ℕ) (peers : List Peer) (j : NodeId)
    → peer_of (set_link link from now peers) j
      ≡ (if mem_eq from j then heard_from link now (peer_of peers j) else peer_of peers j)
peer_of-heard link from now peers j =
    peer_of-set_link link from now peers j ∙ elim (Bool-cases (mem_eq from j)) [
      | inr apart ↦ rw apart refl
      | inl here ↦
          let at : peer_of peers from ≡ peer_of peers j =
            ap (peer_of peers) (mem_eq→eq from j here) in
          rw (here, at)
            (elim (Option-cases (peer_of peers j)) [ inl e ↦ rw e refl | inr (p, e) ↦ rw e refl ])
    ]

others_told-heard :
    (from : NodeId) (now : ℕ) (peers : List Peer) (j : NodeId) (id : MsgId) (payload : List ℕ)
    → others_told from (set_link Link.eager from now peers) j id payload
      ≡ others_told from peers j id payload
others_told-heard from now peers j id payload = elim (Bool-cases (mem_eq from j)) [
  | inl here ↦ rw here refl
  | inr apart ↦
      let at : peer_of (set_link Link.eager from now peers) j ≡ peer_of peers j =
        peer_of-heard Link.eager from now peers j ∙ rw apart refl in
      rw (apart, at) refl
]

prune_for :
    (from j : NodeId) (id : MsgId)
    → keep (is_for j) (Output.send MsgType.prune from id [] ∷ []) ≡ sender_told from j id
prune_for from j id = elim (Bool-cases (mem_eq from j)) [
  | inl here ↦
      rw here (ap (λ (k : NodeId). Output.send MsgType.prune k id [] ∷ []) (mem_eq→eq from j here))
  | inr apart ↦ rw apart refl
]

-- A received GOSSIP, for any node j, with both callbacks: the message is delivered once where it was
-- not known, and is known afterwards. Of a new message each eager peer is sent the payload, each lazy one
-- the identifier, and the sender and the nodes that are no peers nothing; of a known one the sender alone
-- is sent a PRUNE. The link to the sender becomes eager with a new message and lazy with a known one, as
-- of now, where it is a peer; every other peer stays as it was. No slot awaits a new message afterwards.
pub recv_gossip-relays :
    (pt : Plumtree) (hooks : Hooks) (from : NodeId) (id : MsgId) (payload : List ℕ) (now : ℕ)
    (j : NodeId)
    → IsValid pt
    → hooks.can_send ≡ true
    → hooks.can_deliver ≡ true
    → let r = recv_gossip pt hooks from id payload now in
      let known = has_msg pt id in
      (r.0 ≡ not known)
      × (keep is_delivery r.2 ≡ (if known then [] else Output.deliver id payload from ∷ []))
      × (keep (is_for j) r.2
          ≡ (if known then sender_told from j id else others_told from pt.peers j id payload))
      × (peer_of r.1.peers j ≡ (
          if mem_eq from j
          then heard_from (if known then Link.lazy else Link.eager) now (peer_of pt.peers j)
          else peer_of pt.peers j))
      × (has_msg r.1 id ≡ true)
      × (pending_find r.1 id ≡ (if known then pending_find pt id else none))
recv_gossip-relays pt hooks from id payload now j v send deliver =
    let r = recv_gossip pt hooks from id payload now in
    elim (Bool-cases (has_msg pt id)) [
      | inl seen ↦
          let (told, out, peers, cache, pending) =
            recv_gossip-seen pt hooks from id payload now seen in
          let out' : r.2 ≡ Output.send MsgType.prune from id [] ∷ [] =
            out ∙ ap (λ (b : Bool). when b (Output.send MsgType.prune from id [] ∷ [])) send in
          rw (seen, told, out', peers)
            (
              refl,
              refl,
              prune_for from j id,
              peer_of-heard Link.lazy from now pt.peers j,
              ap (λ (cs : List CacheEntry). is_cached cs id) cache ∙ seen,
              ap (find_first (awaits id)) pending,
            )
      | inr new ↦
          let (told, out, peers, cache, known, free) =
            recv_gossip-new pt hooks from id payload now v new in
          let ps = set_link Link.eager from now pt.peers in
          let out' : r.2 ≡ Output.deliver id payload from ∷ push_others from ps id payload =
            out
            ∙ ap
                (λ (b : Bool).
                  when b (Output.deliver id payload from ∷ [])
                  ++ when hooks.can_send (push_others from ps id payload))
                deliver
            ∙ ap
                (λ (b : Bool).
                  Output.deliver id payload from ∷ when b (push_others from ps id payload))
                send in
          rw (new, told, out', peers)
            (
              refl,
              ap (λ (o : List Output). Output.deliver id payload from ∷ o)
                  (keep-push_others from ps id payload),
              push_others-told from ps id payload j
                    (Distinct-set_link Link.eager from now pt.peers v.distinct)
                  ∙ others_told-heard from now pt.peers j id payload,
              peer_of-heard Link.eager from now pt.peers j,
              known,
              free,
            )
    ]
