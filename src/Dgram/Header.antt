-- ===== src/Dgram/Header.antt =====
-- The header, read back.
use libwake.Common.{
  ℕ, zero, suc, ◌+◌, ◌%◌, ◌^◌, ◌≡◌, ◌≤◌, ◌<◌, refl, ◌∙◌, some, List, [], ◌∷◌, ◌++◌, length,
  length-append, get_or, ltb, false, arith, take, replicate,
}
use libwake.Swim.Types.{NodeId, Update}
use libwake.Dgram.{Datagram, slice, blank, decode, dec_body, header, enc_header}
use libwake.Dgram.Buffer.{take-front}
use libwake.Dgram.Entries.{AllFit}

-- A datagram with nothing but its header.
abbrev pub heard : ℕ → NodeId → Datagram
heard type sender = record {
  msg_type = type;
  sender_id = sender;
  target_id = replicate 32 0;
  updates = [];
  msg_id = replicate 16 0;
  payload = [];
}

AllFit-take : (n : ℕ) (us : List Update) → AllFit us → AllFit (take n us)
AllFit-take zero us fits = tt
AllFit-take (suc n) [] fits = tt
AllFit-take (suc n) (u ∷ us) (f, fits) = (f, AllFit-take n us fits)

module _ (type : ℕ) (sender : NodeId) (small : type < 2 ^ 8) (id : length sender ≡ 32) where
  abbrev pub head : List ℕ
  head = header type sender

  pub length-head : length head ≡ 36
  unfolding header
  length-head = omega (arith, id)

  pub length-head_append : (body : List ℕ) → length (head ++ body) ≡ 36 + length body
  length-head_append body = length-append head body ∙ omega (arith, length-head)

  pub decode-head :
      (body : List ℕ) (len : ℕ) → 36 ≤ len → decode (head ++ body) len ≡ dec_body (head ++ body) len
  unfolding decode header
  decode-head body len long = let room : ltb len 36 ≡ false = ground arith in rw room refl

  pub type-head : (body : List ℕ) → get_or (head ++ body) 3 0 ≡ type
  unfolding header
  type-head body = omega arith

  pub blank-head : (body : List ℕ) → blank (head ++ body) ≡ heard type sender
  unfolding blank slice header
  blank-head body =
      let byte : type % 2 ^ 8 ≡ type = omega arith in rw (byte, take-front sender body 32 id) refl

  pub header-room : (room : ℕ) → 36 ≤ room → enc_header room type sender ≡ some head
  unfolding enc_header
  header-room room wide = let fits : ltb room 36 ≡ false = ground arith in rw fits refl
