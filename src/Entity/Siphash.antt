-- ===== src/Entity/Siphash.antt =====
-- siphash_2_4 and the key of the process. A pointer with a length is the list of the bytes; a byte is
-- below 256.
use libwake.Common.{
  ℕ, suc, ◌+◌, ◌-◌, ◌*◌, ◌/◌, ◌%◌, ◌^◌, bit_xor, bit_or, Bool, true, false, List, [], ◌∷◌, ◌++◌,
  take, drop, length, if◌then◌else◌, ◌==◌,
}

abbrev pub rotl64 : ℕ → ℕ → ℕ
rotl64 x b = bit_or ((x * 2 ^ b) % 2 ^ 64) (x / 2 ^ (64 - b))

abbrev add64 : ℕ → ℕ → ℕ
add64 a b = (a + b) % 2 ^ 64

unfoldable pub le_value : List ℕ → ℕ
le_value [] = 0
le_value (x ∷ xs) = x + 256 * le_value xs

unfoldable pub load_le64 : List ℕ → ℕ
unfolding le_value
load_le64 p = le_value (take 8 p)

pub record SipState : Type 0 where
  pub v0 : ℕ
  pub v1 : ℕ
  pub v2 : ℕ
  pub v3 : ℕ

-- SIPROUND
unfoldable pub sipround : SipState → SipState
sipround s =
    let a0 = add64 s.v0 s.v1 in
    let a1 = bit_xor (rotl64 s.v1 13) a0 in
    let b0 = rotl64 a0 32 in
    let a2 = add64 s.v2 s.v3 in
    let a3 = bit_xor (rotl64 s.v3 16) a2 in
    let c0 = add64 b0 a3 in
    let b3 = bit_xor (rotl64 a3 21) c0 in
    let b2 = add64 a2 a1 in
    let b1 = bit_xor (rotl64 a1 17) b2 in record { v0 = c0; v1 = b1; v2 = rotl64 b2 32; v3 = b3 }

-- a word between two exclusive ors
unfoldable pub absorb : ℕ → SipState → SipState
unfolding sipround
absorb m s =
    let twice = sipround (sipround (record s { v3 = bit_xor s.v3 m })) in
    record twice { v0 = bit_xor twice.v0 m }

-- the blocks of eight bytes; the state, and the bytes that are left
unfoldable pub absorb_blocks : List ℕ → SipState → SipState × List ℕ
unfolding absorb load_le64
absorb_blocks (a ∷ b ∷ c ∷ d ∷ e ∷ f ∷ g ∷ h ∷ rest) s =
    absorb_blocks rest (absorb (load_le64 (a ∷ b ∷ c ∷ d ∷ e ∷ f ∷ g ∷ h ∷ [])) s)
absorb_blocks left s = (s, left)

-- the bytes that are left, over the length; the source goes from the last to the first
unfoldable pub last_word : ℕ → ℕ → List ℕ → ℕ
last_word i b [] = b
last_word i b (x ∷ xs) = last_word (suc i) (bit_or b (x * 2 ^ (8 * i))) xs

unfoldable pub siphash_2_4 : List ℕ → List ℕ → ℕ
unfolding absorb_blocks last_word
siphash_2_4 bytes key =
    let k0 = load_le64 key in
    let k1 = load_le64 (drop 8 key) in
    let start : SipState = record {
      v0 = bit_xor k0 0x736f6d6570736575;
      v1 = bit_xor k1 0x646f72616e646f6d;
      v2 = bit_xor k0 0x6c7967656e657261;
      v3 = bit_xor k1 0x7465646279746573;
    } in
    let blocks = absorb_blocks bytes start in
    let s = absorb (last_word 0 ((length bytes * 2 ^ 56) % 2 ^ 64) blocks.1) blocks.0 in
    let e = sipround (sipround (sipround (sipround (record s { v2 = bit_xor s.v2 0xff })))) in
    bit_xor (bit_xor (bit_xor e.v0 e.v1) e.v2) e.v3

-- siphash_key and siphash_initialized
pub record HashState : Type 0 where
  pub key : List ℕ
  pub initialized : Bool

-- What /dev/urandom gives: whether it opens, and the bytes that one read of 16 returns.
pub record Urandom : Type 0 where
  pub opens : Bool
  pub read : List ℕ

-- whether it returns 0, and the state; the bytes of a short read are in the key all the same
unfoldable pub hash_init : Urandom → HashState → Bool × HashState
hash_init dev h =
    if dev.opens
    then (let filled = record h { key = dev.read ++ drop (length dev.read) h.key } in
        if length dev.read == 16
        then (true, record filled { initialized = true })
        else (false, filled))
    else (false, h)

unfoldable pub hash_set_key : List ℕ → HashState
hash_set_key key = record { key = take 16 key; initialized = true }

abbrev pub hash_bytes_keyed : List ℕ → List ℕ → ℕ
hash_bytes_keyed bytes key = siphash_2_4 bytes key
