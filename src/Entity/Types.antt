-- ===== src/Entity/Types.antt =====
-- wake_entity_t, and the classes, types and flags of src/wake_entity.h. An enumerator is its number, as
-- in the struct, where any byte can stand.
use libwake.Common.{ℕ, Bool, ◌||◌, List, ◌==◌, if◌then◌else◌, bit_and}

abbrev pub value_max : ℕ
value_max = 56

-- wake_eclass_t
abbrev pub who : ℕ
who = 0

abbrev pub whom : ℕ
whom = 1

abbrev pub with : ℕ
with = 2

abbrev pub class_count : ℕ
class_count = 3

-- WAKE_EF_HASHED
abbrev pub hashed_flag : ℕ
hashed_flag = 1

-- `value` has 56 bytes
pub record Entity : Type 0 where
  pub eclass : ℕ
  pub etype : ℕ
  pub value_len : ℕ
  pub flags : ℕ
  pub reserved : ℕ
  pub value : List ℕ

-- wake_etype_fixed_len
unfoldable pub fixed_len : ℕ → ℕ
fixed_len et =
    if et == 0x10
    then 4
    else if et == 0x11
    then 16
    else if et == 0x40
    then 16
    else if et == 0x41
    then 20
    else if et == 0x42
    then 32
    else if et == 0x50
    then 2
    else if et == 0x51
    then 1
    else if et == 0x52
    then 8
    else if et == 0x53
    then 4
    else 0

-- the type without its low digit
abbrev family : ℕ → ℕ
family et = bit_and et 0xF0

unfoldable pub is_string : ℕ → Bool
is_string et = family et == 0x20 || family et == 0x30

unfoldable pub is_addr : ℕ → Bool
is_addr et = family et == 0x10

unfoldable pub is_hash : ℕ → Bool
is_hash et = family et == 0x40

unfoldable pub is_numeric : ℕ → Bool
is_numeric et = family et == 0x50
