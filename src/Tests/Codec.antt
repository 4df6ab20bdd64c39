-- ===== src/Tests/Codec.antt =====
-- The properties of the datagram codec at concrete inputs.
use libwake.Common.{
  ℕ, ◌≡◌, ◌<◌, ◌^◌, refl, none, some, List, [], ◌∷◌, ◌++◌, length, replicate, arith,
}
use libwake.Swim.Types.{Update}
use libwake.Dgram.{decode, encode_swim, encode_pt_gossip, swim_ping, swim_ping_req, pt_gossip}
use libwake.Dgram.Header.{heard}
use libwake.Dgram.Entries.{FitsUpdate}
use libwake.Dgram.Swim.{encode_swim-decode, encode_ping_req-decode}
use libwake.Dgram.Plumtree.{encode_pt_gossip-decode}
use libwake.Dgram.Bounds.{decode-bounded}
use libwake.Tests.Samples.{node, update}

abbrev news : List Update
news = update 3 2 70000 ∷ update 5 0 1 ∷ []

fits : (k s i : ℕ) → s < 2 ^ 8 → i < 2 ^ 32 → FitsUpdate (update k s i)
fits k s i hs hi = record {
  id = refl;
  addr = omega arith;
  port = omega arith;
  state = hs;
  incarnation = hi;
  piggyback = omega arith;
}

abbrev message : List ℕ
message = replicate 16 170

encode_swim-decode_example :
    (b : List ℕ) × (encode_swim 200 swim_ping (node 9) none news ≡ some b)
    × (length b ≡ 133)
    × (decode b (length b) ≡ some (record (heard swim_ping (node 9)) { updates = news }))
encode_swim-decode_example =
    encode_swim-decode 200 swim_ping (node 9) news refl refl
      (fits 3 2 70000 (omega arith) (omega arith), (fits 5 0 1 (omega arith) (omega arith), tt))
      (omega arith)

encode_ping_req-decode_example :
    (b : List ℕ) × (encode_swim 200 swim_ping_req (node 9) (some (node 4)) news ≡ some b)
    × (length b ≡ 165)
    × (decode b (length b)
        ≡ some (record (heard swim_ping_req (node 9)) { target_id = node 4; updates = news }))
encode_ping_req-decode_example =
    encode_ping_req-decode 200 (node 9) (node 4) news refl refl
      (fits 3 2 70000 (omega arith) (omega arith), (fits 5 0 1 (omega arith) (omega arith), tt))
      (omega arith)

encode_pt_gossip-decode_example :
    (b : List ℕ) × (encode_pt_gossip 100 (node 9) message (1 ∷ 2 ∷ 3 ∷ []) ≡ some b)
    × (length b ≡ 57)
    × (decode b (length b)
        ≡ some (record (heard pt_gossip (node 9)) { msg_id = message; payload = 1 ∷ 2 ∷ 3 ∷ [] }))
encode_pt_gossip-decode_example =
    encode_pt_gossip-decode 100 (node 9) message (1 ∷ 2 ∷ 3 ∷ []) refl refl (omega arith)
      (omega arith)

-- Three bytes of a truncated PING.
decode-bounded_example : decode ((87 ∷ 68 ∷ 1 ∷ []) ++ node 9) 3 ≡ decode (87 ∷ 68 ∷ 1 ∷ []) 3
decode-bounded_example = decode-bounded (87 ∷ 68 ∷ 1 ∷ []) (node 9)
