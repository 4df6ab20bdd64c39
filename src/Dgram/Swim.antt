-- ===== src/Dgram/Swim.antt =====
-- SWIM messages: decoding what wake_dgram_encode_swim wrote.
use libwake.Common.{
  ℕ, zero, suc, ◌+◌, ◌*◌, ◌^◌, ◌≡◌, ◌≤◌, ◌<◌, refl, sym, ◌∙◌, ap, none, some, List, [], ◌∷◌, ◌++◌,
  length, length-append, length-take, ltb, true, false, arith, take, ◌||◌, ◌==◌,
}
use mathlib.Core.List.{append_assoc}
use libwake.Swim.Types.{NodeId, Update}
use libwake.Dgram.{
  slice, with_updates, decode, dec_body, dec_updates, enc_loop, enc_updates, encode_swim,
  max_updates, swim_ping, swim_ack, swim_ping_req,
}
use libwake.Dgram.Buffer.{slice-behind, slice-front}
use libwake.Dgram.Entries.{AllFit, dec_updates-enc_loop, length-enc_loop}
use libwake.Dgram.Header.{
  heard, head, length-head, length-head_append, decode-head, type-head, blank-head, header-room,
}

AllFit-take : (n : ℕ) (us : List Update) → AllFit us → AllFit (take n us)
AllFit-take zero us fits = tt
AllFit-take (suc n) [] fits = tt
AllFit-take (suc n) (u ∷ us) (f, fits) = (f, AllFit-take n us fits)

-- The entries that fit into a message.
abbrev pub sent : List Update → List Update
sent us = take max_updates us

few : (us : List Update) → length (sent us) ≤ max_updates
few us = omega (arith, length-take max_updates us)

listed :
    (us : List Update)
    → AllFit us
    → length (length (sent us) ∷ enc_loop (sent us)) ≡ 1 + length (sent us) * 48
listed us fits = omega (arith, length-enc_loop (sent us) (AllFit-take max_updates us fits))

-- A PING or an ACK with room for its bytes is written in full, and decodes to its sender and the
-- first eight of its updates, where every field fits its width.
pub encode_swim-decode :
    (room type : ℕ) (sender : NodeId) (us : List Update)
    → (type == swim_ping || type == swim_ack) ≡ true
    → length sender ≡ 32
    → AllFit us
    → 36 + 1 + length (sent us) * 48 ≤ room
    → (b : List ℕ) × (encode_swim room type sender none us ≡ some b)
      × (length b ≡ 36 + 1 + length (sent us) * 48)
      × (decode b (length b) ≡ some (record (heard type sender) { updates = sent us }))
unfolding encode_swim enc_updates dec_body with_updates
encode_swim-decode room type sender us kind id fits wide =
    let small : type < 2 ^ 8 = ground (arith, kind) in
    let body = length (sent us) ∷ enc_loop (sent us) in
    let b = head type sender small id ++ body in
    let not_req : (type == swim_ping_req) ≡ false = ground (arith, kind) in
    let enough : ltb room (36 + 1 + length (sent us) * 48) ≡ false = ground arith in
    let size : length b ≡ 36 + 1 + length (sent us) * 48 =
      length-head_append type sender small id body ∙ omega (arith, listed us fits) in
    let read =
      dec_updates-enc_loop (head type sender small id) (sent us) 36
        (length-head type sender small id) (few us) (AllFit-take max_updates us fits) in
    (
      b,
      rw (header-room type sender small id room (omega (arith, wide)), not_req, enough, encode_swim)
          refl,
      size,
      rw
          (
            size,
            decode-head type sender small id body (36 + 1 + length (sent us) * 48) (omega arith),
            type-head type sender small id body,
            kind,
            read,
            blank-head type sender small id body,
          )
          refl,
    )

-- A PING_REQ with a target and room for its bytes is written in full, and decodes to its sender,
-- its target and the first eight of its updates, where every field fits its width.
pub encode_ping_req-decode :
    (room : ℕ) (sender target : NodeId) (us : List Update)
    → length sender ≡ 32
    → length target ≡ 32
    → AllFit us
    → 68 + 1 + length (sent us) * 48 ≤ room
    → (b : List ℕ) × (encode_swim room swim_ping_req sender (some target) us ≡ some b)
      × (length b ≡ 68 + 1 + length (sent us) * 48)
      × (decode b (length b)
          ≡ some (record (heard swim_ping_req sender) { target_id = target; updates = sent us }))
unfolding encode_swim enc_updates dec_body with_updates
encode_ping_req-decode room sender target us id to fits wide =
    let type = swim_ping_req in
    let small : type < 2 ^ 8 = omega arith in
    let body = length (sent us) ∷ enc_loop (sent us) in
    let front = head type sender small id in
    let b = (front ++ target) ++ body in
    let whole : b ≡ front ++ (target ++ body) = append_assoc front target body in
    let size_front : length (front ++ target) ≡ 68 =
      length-head_append type sender small id target ∙ omega (arith, to) in
    let size : length b ≡ 68 + 1 + length (sent us) * 48 =
      length-append (front ++ target) body ∙ omega (arith, size_front, listed us fits) in
    let len = 68 + 1 + length (sent us) * 48 in
    let enough : ltb room len ≡ false = ground arith in
    let enough' : ltb room (36 + 32) ≡ false = ground arith in
    let long : ltb len (36 + 32) ≡ false = ground arith in
    let read : dec_updates (front ++ (target ++ body)) len 68 ≡ some (sent us) =
      ap (λ (m : List ℕ). dec_updates m len 68) (sym whole)
      ∙ dec_updates-enc_loop (front ++ target) (sent us) 68 size_front (few us)
          (AllFit-take max_updates us fits) in
    let aim : slice (front ++ (target ++ body)) 36 32 ≡ target =
      slice-behind front (target ++ body) 36 0 32 (length-head type sender small id)
      ∙ slice-front target body 32 to in
    (
      b,
      rw (header-room type sender small id room (omega (arith, wide)), enough', enough, encode_swim)
          refl,
      size,
      rw
          (
            size,
            whole,
            decode-head type sender small id (target ++ body) len (omega arith),
            type-head type sender small id (target ++ body),
            long,
            read,
            blank-head type sender small id (target ++ body),
            aim,
          )
          refl,
    )
