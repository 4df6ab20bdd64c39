-- ===== src/Dgram.antt =====
-- The datagram codec, src/wake_dgram.c: `static` byte helpers, wake_dgram_decode and the three
-- encoders. A pointer `buf + off` is a list of bytes, the memory from `buf` on, and an offset; the
-- length is a separate argument, as in the source, so memory may go on behind the buffer. An encoder
-- returns the bytes it has written, whose number is what the source returns, and `none` is 0.
pub mod Buffer
pub mod Words
pub mod Entries
pub mod Bounds
pub mod Header
pub mod Swim
pub mod Plumtree
use libwake.Common.{
  ℕ, zero, suc, ◌+◌, ◌*◌, ◌/◌, ◌%◌, ◌^◌, Option, none, some, List, [], ◌∷◌, ◌++◌, Bool, true, false,
  leb, ltb, ◌==◌, ◌||◌, not, if◌then◌else◌, length, get_or, take, drop, replicate,
}
use libwake.Swim.Types.{NodeId, Update}

-- wake_dgram_type_t
abbrev pub swim_ping : ℕ
swim_ping = 0

abbrev pub swim_ack : ℕ
swim_ack = 1

abbrev pub swim_ping_req : ℕ
swim_ping_req = 2

abbrev pub pt_gossip : ℕ
pt_gossip = 3

abbrev pub pt_ihave : ℕ
pt_ihave = 4

abbrev pub pt_graft : ℕ
pt_graft = 5

abbrev pub pt_prune : ℕ
pt_prune = 6

abbrev pub max_updates : ℕ
max_updates = 8

abbrev pub max_payload : ℕ
max_payload = 256

-- A decoded datagram. `n_updates` and `payload_len` are the lengths of the lists.
pub record Datagram : Type 0 where
  pub msg_type : ℕ
  pub sender_id : NodeId
  pub target_id : NodeId
  pub updates : List Update
  pub msg_id : List ℕ
  pub payload : List ℕ

-- `memcpy(dst, buf + off, n)`
pub slice : List ℕ → ℕ → ℕ → List ℕ
slice mem off n = take n (drop off mem)

-- `|` of bytes shifted to different places is their sum
pub rd16 : List ℕ → ℕ → ℕ
rd16 mem off = get_or mem off 0 + get_or mem (off + 1) 0 * 2 ^ 8

pub rd32 : List ℕ → ℕ → ℕ
rd32 mem off =
    get_or mem off 0
    + get_or mem (off + 1) 0 * 2 ^ 8
    + get_or mem (off + 2) 0 * 2 ^ 16
    + get_or mem (off + 3) 0 * 2 ^ 24

pub wr16 : ℕ → List ℕ
wr16 v = v % 2 ^ 8 ∷ (v / 2 ^ 8) % 2 ^ 8 ∷ []

pub wr32 : ℕ → List ℕ
wr32 v = v % 2 ^ 8 ∷ (v / 2 ^ 8) % 2 ^ 8 ∷ (v / 2 ^ 16) % 2 ^ 8 ∷ (v / 2 ^ 24) % 2 ^ 8 ∷ []

pub dec_update : List ℕ → ℕ → Update
dec_update mem off = record {
  node_id = slice mem off 32;
  addr = rd32 mem (off + 32);
  port = rd16 mem (off + 36);
  state = get_or mem (off + 38) 0;
  incarnation = rd32 mem (off + 40);
  piggyback_count = rd16 mem (off + 44);
}

pub enc_update : Update → List ℕ
enc_update u =
    u.node_id
    ++ (wr32 u.addr
        ++ (wr16 u.port
            ++ (u.state ∷ 0 ∷ (wr32 u.incarnation ++ (wr16 u.piggyback_count ++ wr16 0)))))

-- the loop over the entries
pub dec_loop : ℕ → List ℕ → ℕ → List Update
dec_loop zero mem off = []
dec_loop (suc n) mem off = dec_update mem off ∷ dec_loop n mem (off + 48)

pub dec_updates : List ℕ → ℕ → ℕ → Option (List Update)
unfolding dec_loop
dec_updates mem len off =
    if leb len off
    then some []
    else (let count = get_or mem off 0 in
        if ltb max_updates count
        then none
        else if ltb len (off + 1 + count * 48)
        then none
        else some (dec_loop count mem (off + 1)))

-- after `memset(out, 0, sizeof(*out))` and the two fields of the header
pub blank : List ℕ → Datagram
blank mem = record {
  msg_type = get_or mem 3 0;
  sender_id = slice mem 4 32;
  target_id = replicate 32 0;
  updates = [];
  msg_id = replicate 16 0;
  payload = [];
}

-- the datagram with the decoded list, if any
pub with_updates : Datagram → Option (List Update) → Option Datagram
with_updates d none = none
with_updates d (some us) = some (record d { updates = us })

pub dec_gossip : List ℕ → ℕ → Option Datagram
dec_gossip mem len =
    if ltb len (36 + 16 + 2)
    then none
    else (let plen = rd16 mem 52 in
        if ltb max_payload plen
        then none
        else if ltb len (54 + plen)
        then none
        else some (record (blank mem) { msg_id = slice mem 36 16; payload = slice mem 54 plen }))

-- the switch on the message type
pub dec_body : List ℕ → ℕ → Option Datagram
dec_body mem len =
    let t = get_or mem 3 0 in
    if t == swim_ping || t == swim_ack
    then with_updates (blank mem) (dec_updates mem len 36)
    else if t == swim_ping_req
    then (if ltb len (36 + 32)
        then none
        else with_updates (record (blank mem) { target_id = slice mem 36 32 })
            (dec_updates mem len 68))
    else if t == pt_gossip
    then dec_gossip mem len
    else if t == pt_ihave || t == pt_graft
    then (if ltb len (36 + 16)
        then none
        else some (record (blank mem) { msg_id = slice mem 36 16 }))
    else if t == pt_prune
    then some (blank mem)
    else none

-- the body after the test for null pointers; `'W'` is 87 and `'D'` is 68
pub decode : List ℕ → ℕ → Option Datagram
decode mem len =
    if ltb len 36
    then none
    else if not (get_or mem 0 0 == 87) || not (get_or mem 1 0 == 68)
    then none
    else if not (get_or mem 2 0 == 1)
    then none
    else dec_body mem len

-- the bytes of the header, once there is room for them
pub header : ℕ → NodeId → List ℕ
header type sender = 87 ∷ 68 ∷ 1 ∷ type % 2 ^ 8 ∷ sender

pub enc_header : ℕ → ℕ → NodeId → Option (List ℕ)
enc_header room type sender = if ltb room 36 then none else some (header type sender)

pub enc_loop : List Update → List ℕ
enc_loop [] = []
enc_loop (u ∷ us) = enc_update u ++ enc_loop us

-- the count and the entries after `off` bytes
pub enc_updates : ℕ → ℕ → List ℕ → List Update → Option (List ℕ)
enc_updates room off written us =
    if ltb room (off + 1 + length us * 48) then none else some (written ++ length us ∷ enc_loop us)

-- `us` is the array with its `n_updates` entries
pub encode_swim : ℕ → ℕ → NodeId → Option NodeId → List Update → Option (List ℕ)
encode_swim room type sender target us =
    let sent = take max_updates us in
    elim (enc_header room type sender) [
      | none ↦ none
      | some written ↦
          if type == swim_ping_req
          then elim target [
            | none ↦ none
            | some t ↦ if ltb room (36 + 32) then none else enc_updates room 68 (written ++ t) sent
          ]
          else enc_updates room 36 written sent
    ]

pub encode_pt_gossip : ℕ → NodeId → List ℕ → List ℕ → Option (List ℕ)
encode_pt_gossip room sender msg_id payload =
    if ltb max_payload (length payload) then none else elim (enc_header room pt_gossip sender) [
      | none ↦ none
      | some written ↦
          if ltb room (36 + 16 + 2 + length payload)
          then none
          else some (written ++ (msg_id ++ (wr16 (length payload) ++ payload)))
    ]

pub encode_pt_ctrl : ℕ → ℕ → NodeId → List ℕ → Option (List ℕ)
encode_pt_ctrl room type sender msg_id = elim (enc_header room type sender) [
  | none ↦ none
  | some written ↦
      if type == pt_prune
      then some written
      else if ltb room (36 + 16)
      then none
      else some (written ++ msg_id)
]
