-- ===== src/Tests/Entities.antt =====
-- Entities and signals at concrete inputs, and SipHash on the vectors of its authors.
use libwake.Common.{
  length, none, ◌<◌, ℕ, zero, suc, ◌+◌, ◌≡◌, ◌≤◌, refl, true, List, [], ◌∷◌, ◌++◌, mem_eq,
  mem_eq_refl, arith,
}
use libwake.Entity.Types.{Entity, who, fixed_len}
use libwake.Entity.Siphash.{siphash_2_4}
use libwake.Entity.Init.{init_user}
use libwake.Entity.Ops.{valid, entity_eq}
use libwake.Entity.Valid.{user, is_misuse, Made-valid}
use libwake.Entity.Distinct.{init_str-determines}
use libwake.Entity.Contract.{IsEntity, valid-IsEntity, hashed_bytes-determines}
use libwake.Entity.Format.{entity_format}
use libwake.Entity.Printed.{entity_format_bounded}
use libwake.Crypto.{Cipher, IsCorrect, keygen_from_seed}
use libwake.Signal
use libwake.Signal.{Content, Signal, init, forward}
use libwake.Signal.Travel.{init-verify, here, hop, OnTheWay, Travels-OnTheWay}

abbrev count_up : ℕ → ℕ → List ℕ
count_up zero k = []
count_up (suc n) k = k ∷ count_up n (k + 1)

abbrev zeros : ℕ → List ℕ
zeros zero = []
zeros (suc n) = 0 ∷ zeros n

siphash_empty : siphash_2_4 [] (count_up 16 0) ≡ 0x726fdb47dd0e0e31
unfolding siphash_2_4
siphash_empty = refl

siphash_fifteen : siphash_2_4 (count_up 15 0) (count_up 16 0) ≡ 0xa129ca6149be45e5
unfolding siphash_2_4
siphash_fifteen = refl

abbrev host : Entity
host = record {
  eclass = who;
  etype = 0x20;
  value_len = 3;
  flags = 0;
  reserved = 0;
  value = 5 ∷ 6 ∷ 7 ∷ [];
}

Made-valid_example : valid (init_user (count_up 16 0) who (count_up 60 1)) ≡ true
unfolding is_misuse
Made-valid_example = Made-valid (count_up 16 0) (user who (count_up 60 1)) (omega arith) refl

valid-IsEntity_example : (valid host ≡ true → IsEntity host) × (IsEntity host → valid host ≡ true)
valid-IsEntity_example = valid-IsEntity host

init_str-determines_example : count_up 3 1 ≡ count_up 3 1
unfolding entity_eq
init_str-determines_example =
    init_str-determines [] who 0x20 (count_up 3 1) (count_up 3 1) (omega arith) (mem_eq_refl _)

-- the address 127.0.0.1
abbrev loopback : Entity
loopback = record {
  eclass = who;
  etype = 0x10;
  value_len = 4;
  flags = 0;
  reserved = 0;
  value = 127 ∷ 0 ∷ 0 ∷ 1 ∷ zeros 52;
}

loopback-valid : valid loopback ≡ true
unfolding valid fixed_len
loopback-valid = refl

hashed_bytes-determines_example : loopback ≡ loopback
hashed_bytes-determines_example =
    hashed_bytes-determines loopback loopback loopback-valid loopback-valid refl refl refl

-- a signature that is the key and the message
abbrev open_cipher : Cipher
open_cipher = record {
  ed25519_key_pair = λ seed. (seed, seed);
  ed25519_sign = λ sk msg. sk ++ msg;
  ed25519_check = λ sig pk msg. mem_eq sig (pk ++ msg);
}

open_cipher-IsCorrect : IsCorrect open_cipher
open_cipher-IsCorrect seed msg = mem_eq_refl (seed ++ msg)

abbrev content : Content
content = record {
  entity = loopback;
  signal_type = 2;
  scope = 1;
  action = 1;
  outcome = 2;
  tenant_id = 7;
  confidence = 90;
  hit_count = 3;
  ttl = 2;
  phase_flags = 0;
}

abbrev alert : Signal
alert = init open_cipher content 1700000000 (keygen_from_seed open_cipher (1 ∷ []))

init-verify_example :
    Signal.verify open_cipher
      (init open_cipher content 1700000000 (keygen_from_seed open_cipher (1 ∷ [])))
    ≡ true
init-verify_example =
    init-verify open_cipher open_cipher-IsCorrect content 1700000000 (1 ∷ []) (omega arith)
      (omega arith) loopback-valid

Travels-OnTheWay_example :
    OnTheWay open_cipher alert 1
      (forward open_cipher alert (keygen_from_seed open_cipher (2 ∷ []))).1
    × (1 ≤ 2)
unfolding init forward
Travels-OnTheWay_example =
    Travels-OnTheWay open_cipher alert open_cipher-IsCorrect
      (init-verify open_cipher open_cipher-IsCorrect content 1700000000 (1 ∷ []) (omega arith)
        (omega arith) loopback-valid)
      (omega arith) (hop here (2 ∷ []) refl)

entity_format_bounded_example : length (entity_format (λ addr. none) [] loopback 12).1 < 12
entity_format_bounded_example = entity_format_bounded (λ addr. none) [] loopback 12 (omega arith)
