-- ===== src/Dgram/Plumtree.antt =====
-- Broadcast messages: decoding what wake_dgram_encode_pt_gossip and wake_dgram_encode_pt_ctrl wrote.
use libwake.Common.{
  ℕ, ◌+◌, ◌^◌, ◌≡◌, ◌≤◌, ◌<◌, refl, sym, ◌∙◌, ap, some, List, [], ◌++◌, length, length-append, ltb,
  true, false, arith, take-all, ◌||◌, ◌==◌,
}
use mathlib.Core.List.{append-nil}
use libwake.Swim.Types.{NodeId}
use libwake.Dgram.{
  slice, rd16, wr16, decode, dec_body, dec_gossip, encode_pt_gossip, encode_pt_ctrl, max_payload,
  pt_gossip, pt_ihave, pt_graft, pt_prune,
}
use libwake.Dgram.Buffer.{slice-behind, slice-front}
use libwake.Dgram.Words.{rd16-wr16, rd16-behind}
use libwake.Dgram.Header.{
  heard, head, length-head, length-head_append, decode-head, type-head, blank-head, header-room,
}

slice-all : (xs : List ℕ) → slice xs 0 (length xs) ≡ xs
unfolding slice
slice-all xs = take-all xs

length-wr16 : (v : ℕ) → length (wr16 v) ≡ 2
unfolding wr16
length-wr16 v = refl

-- A GOSSIP whose payload has at most 256 bytes is written in full where there is room, and decodes
-- to its sender, its message identifier and its payload.
pub encode_pt_gossip-decode :
    (room : ℕ) (sender : NodeId) (msg_id payload : List ℕ)
    → length sender ≡ 32
    → length msg_id ≡ 16
    → length payload ≤ max_payload
    → 36 + 16 + 2 + length payload ≤ room
    → (b : List ℕ) × (encode_pt_gossip room sender msg_id payload ≡ some b)
      × (length b ≡ 36 + 16 + 2 + length payload)
      × (decode b (length b)
          ≡ some (record (heard pt_gossip sender) { msg_id = msg_id; payload = payload }))
unfolding encode_pt_gossip dec_body dec_gossip
encode_pt_gossip-decode room sender msg_id payload id mid short wide =
    let small : pt_gossip < 2 ^ 8 = omega arith in
    let n = length payload in
    let tail = wr16 n ++ payload in
    let body = msg_id ++ tail in
    let front = head pt_gossip sender small id in
    let b = front ++ body in
    let at = length-head pt_gossip sender small id in
    let size : length b ≡ 36 + 16 + 2 + n =
      length-head_append pt_gossip sender small id body
      ∙ omega
          (arith, mid, length-append msg_id tail, length-append (wr16 n) payload, length-wr16 n) in
    let plen : rd16 b 52 ≡ n =
      rd16-behind front body 36 16 at
      ∙ rd16-behind msg_id tail 16 0 mid
      ∙ rd16-wr16 n payload (omega (arith, short)) in
    let ident : slice b 36 16 ≡ msg_id =
      slice-behind front body 36 0 16 at ∙ slice-front msg_id tail 16 mid in
    let content : slice b 54 n ≡ payload =
      slice-behind front body 36 18 n at
      ∙ slice-behind msg_id tail 16 2 n mid
      ∙ slice-behind (wr16 n) payload 2 0 n (length-wr16 n)
      ∙ slice-all payload in
    let allowed : ltb max_payload n ≡ false = ground arith in
    let enough : ltb room (36 + 16 + 2 + n) ≡ false = ground arith in
    let long : ltb (36 + 16 + 2 + n) (36 + 16 + 2) ≡ false = ground arith in
    let inside : ltb (36 + 16 + 2 + n) (54 + n) ≡ false = ground arith in
    (
      b,
      rw
          (
            header-room pt_gossip sender small id room (omega (arith, wide)),
            allowed,
            enough,
            encode_pt_gossip,
          )
          refl,
      size,
      rw
          (
            size,
            decode-head pt_gossip sender small id body (36 + 16 + 2 + n) (omega arith),
            type-head pt_gossip sender small id body,
            long,
            plen,
            allowed,
            inside,
            ident,
            content,
            blank-head pt_gossip sender small id body,
          )
          refl,
    )

-- An IHAVE or a GRAFT is written in full where there is room, and decodes to its sender and its
-- message identifier.
pub encode_pt_ctrl-decode :
    (room type : ℕ) (sender : NodeId) (msg_id : List ℕ)
    → (type == pt_ihave || type == pt_graft) ≡ true
    → length sender ≡ 32
    → length msg_id ≡ 16
    → 36 + 16 ≤ room
    → (b : List ℕ) × (encode_pt_ctrl room type sender msg_id ≡ some b)
      × (length b ≡ 36 + 16)
      × (decode b (length b) ≡ some (record (heard type sender) { msg_id = msg_id }))
unfolding encode_pt_ctrl dec_body
encode_pt_ctrl-decode room type sender msg_id kind id mid wide =
    let small : type < 2 ^ 8 = ground (arith, kind) in
    let front = head type sender small id in
    let b = front ++ msg_id in
    let size : length b ≡ 36 + 16 =
      length-head_append type sender small id msg_id ∙ omega (arith, mid) in
    let ident : slice b 36 16 ≡ msg_id =
      slice-behind front msg_id 36 0 16 (length-head type sender small id)
      ∙ ap (λ (n : ℕ). slice msg_id 0 n) (sym mid)
      ∙ slice-all msg_id in
    let not_prune : (type == pt_prune) ≡ false = ground (arith, kind) in
    let not_swim : (type == 0 || type == 1) ≡ false = ground (arith, kind) in
    let not_req : (type == 2) ≡ false = ground (arith, kind) in
    let not_gossip : (type == pt_gossip) ≡ false = ground (arith, kind) in
    let enough : ltb room (36 + 16) ≡ false = ground arith in
    (
      b,
      rw
          (
            header-room type sender small id room (omega (arith, wide)),
            not_prune,
            enough,
            encode_pt_ctrl,
          )
          refl,
      size,
      rw
          (
            size,
            decode-head type sender small id msg_id (36 + 16) (omega arith),
            type-head type sender small id msg_id,
            not_swim,
            not_req,
            not_gossip,
            kind,
            ident,
            blank-head type sender small id msg_id,
          )
          refl,
    )

-- A PRUNE is its header, and decodes to its sender.
pub encode_prune-decode :
    (room : ℕ) (sender : NodeId) (msg_id : List ℕ)
    → length sender ≡ 32
    → 36 ≤ room
    → (b : List ℕ) × (encode_pt_ctrl room pt_prune sender msg_id ≡ some b)
      × (length b ≡ 36)
      × (decode b (length b) ≡ some (heard pt_prune sender))
unfolding encode_pt_ctrl dec_body
encode_prune-decode room sender msg_id id wide =
    let small : pt_prune < 2 ^ 8 = omega arith in
    let b = head pt_prune sender small id in
    let size = length-head pt_prune sender small id in
    let whole : b ++ [] ≡ b = append-nil b in
    (
      b,
      rw (header-room pt_prune sender small id room wide, encode_pt_ctrl) refl,
      size,
      ap (λ (m : List ℕ). decode m (length b)) (sym whole)
          ∙ decode-head pt_prune sender small id [] (length b) (omega (arith, size))
          ∙ rw (type-head pt_prune sender small id [], blank-head pt_prune sender small id []) refl,
    )
