-- ===== src/Entity/Ops.antt =====
-- wake_entity_hash, eq and valid.
use libwake.Common.{
  ℕ, ◌+◌, Bool, true, false, ◌&&◌, not, List, [], ◌∷◌, ◌++◌, ◌==◌, ltb, leb, if◌then◌else◌, take,
  drop, bit_and, mem_eq,
}
use libwake.Entity.Types.{Entity, value_max, class_count, hashed_flag, fixed_len}
use libwake.Entity.Siphash.{siphash_2_4}
use libwake.Entity.Init.{le_bytes}

-- the 64 bytes of the struct
unfoldable pub image : Entity → List ℕ
unfolding le_bytes
image e = e.eclass ∷ e.etype ∷ e.value_len ∷ e.flags ∷ le_bytes 4 e.reserved ++ e.value

-- the header and the bytes of the value; the struct ends after 56 of them, which `valid` checks
unfoldable pub hashed_bytes : Entity → List ℕ
unfolding image
hashed_bytes e = take (8 + e.value_len) (image e)

unfoldable pub entity_hash : List ℕ → Entity → ℕ
unfolding hashed_bytes
entity_hash key e = siphash_2_4 (hashed_bytes e) key

unfoldable pub entity_eq : Entity → Entity → Bool
unfolding image
entity_eq a b = mem_eq (image a) (image b)

-- the loop over the unused bytes
unfoldable pub all_zero : List ℕ → Bool
all_zero [] = true
all_zero (x ∷ xs) = x == 0 && all_zero xs

abbrev pub is_hashed : Entity → Bool
is_hashed e = not (bit_and e.flags hashed_flag == 0)

abbrev pub has_length : Entity → Bool
has_length e = not (ltb 0 (fixed_len e.etype) && not (e.value_len == fixed_len e.etype))

unfoldable pub valid : Entity → Bool
unfolding all_zero
valid e =
    if leb class_count e.eclass
    then false
    else if ltb value_max e.value_len
    then false
    else if not (e.reserved == 0)
    then false
    else if not (all_zero (drop e.value_len e.value))
    then false
    else if not (is_hashed e)
    then has_length e
    else true
