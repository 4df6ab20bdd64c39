-- ===== src/Common/Words.antt =====
-- Machine words: an unsigned w-bit value is a number below 2 ^ w, and arithmetic wraps.
use Prim.Native.Nat.{ℕ, ◌+◌, ◌-◌, ◌%◌, ◌^◌}

-- `x++` on uint16_t, uint32_t and uint64_t
abbrev pub inc16 : ℕ → ℕ
inc16 x = (x + 1) % 2 ^ 16

abbrev pub inc32 : ℕ → ℕ
inc32 x = (x + 1) % 2 ^ 32

abbrev pub inc64 : ℕ → ℕ
inc64 x = (x + 1) % 2 ^ 64

-- `a - b` on uint64_t
abbrev pub sub64 : ℕ → ℕ → ℕ
sub64 a b = (a + 2 ^ 64 - b) % 2 ^ 64

-- the casts to narrower words
abbrev pub u8 : ℕ → ℕ
u8 x = x % 2 ^ 8

abbrev pub u16 : ℕ → ℕ
u16 x = x % 2 ^ 16

abbrev pub u32 : ℕ → ℕ
u32 x = x % 2 ^ 32
