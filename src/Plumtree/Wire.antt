-- ===== src/Plumtree/Wire.antt =====
-- The answer to a GRAFT on its way through a datagram, src/wake_dgram.c, to the node that asked.
use libwake.Common.{
  ℕ, ◌≡◌, ◌≤◌, refl, ◌∙◌, true, false, some, List, [], ◌∷◌, length, length-take, take, arith,
}
use libwake.Swim.Types.{NodeId}
use libwake.Dgram.{Datagram, pt_gossip, encode_pt_gossip, decode}
use libwake.Dgram.Header.{heard}
use libwake.Dgram.Plumtree.{encode_pt_gossip-decode}
use libwake.Plumtree.Types.{Link, MsgType, MsgId, Plumtree}
use libwake.Plumtree.Peers.{set_link}
use libwake.Plumtree.Cache.{has_msg, max_payload}
use libwake.Plumtree.Output.{Output, Hooks, when, push_others}
use libwake.Plumtree.Handlers.{recv_gossip, recv_graft}
use libwake.Plumtree.Invariant.{IsValid}
use libwake.Plumtree.Delivery.{recv_gossip-new, recv_graft-answers}

-- The answer to a GRAFT, for a message of any length that has been received, fits in a datagram of 310
-- bytes, and what the other node decodes from it makes that node deliver what was stored of the message
-- under its sender's name, if it did not have the message; for identifiers of the source's lengths and
-- with both callbacks.
pub answer-reaches :
    (source pt : Plumtree) (hooks : Hooks) (origin : NodeId) (id : MsgId) (payload : List ℕ)
    (room first later again : ℕ)
    → IsValid source
    → IsValid pt
    → has_msg source id ≡ false
    → has_msg pt id ≡ false
    → length source.self_id ≡ 32
    → length id ≡ 16
    → 310 ≤ room
    → hooks.can_send ≡ true
    → hooks.can_deliver ≡ true
    → let stored = take max_payload payload in
      let holder = (recv_gossip source hooks origin id payload first).1 in
      ((recv_graft holder hooks pt.self_id id later).1
        ≡ Output.send MsgType.gossip pt.self_id id stored ∷ [])
      × ((b : List ℕ) × (d : Datagram) × (rest : List Output) × (encode_pt_gossip room
              source.self_id id stored
            ≡ some b)
          × (decode b (length b) ≡ some d)
          × ((recv_gossip pt hooks d.sender_id d.msg_id d.payload again).2
              ≡ Output.deliver id stored source.self_id ∷ rest))
answer-reaches source pt hooks origin id payload room first later again vs v hs h own mid wide send
      deliver =
    let stored = take max_payload payload in
    let short : length stored ≤ 256 = omega (arith, length-take max_payload payload) in
    let answers = recv_graft-answers source hooks origin pt.self_id id payload first later vs hs in
    let (b, made, size, read) =
      encode_pt_gossip-decode room source.self_id id stored own mid short
        (omega (arith, short, wide)) in
    let (new, out, peers, cache, known, free) =
      recv_gossip-new pt hooks source.self_id id stored again v h in
    (
      answers.0 ∙ rw send refl,
      (
        b,
        record (heard pt_gossip source.self_id) { msg_id = id; payload = stored },
        when hooks.can_send (
            push_others source.self_id (set_link Link.eager source.self_id again pt.peers) id
              stored),
        made,
        read,
        out ∙ rw deliver refl,
      ),
    )
