-- ===== src/Dgram/Words.antt =====
-- Little-endian words: reading what was written.
use libwake.Common.{ℕ, ◌+◌, ◌^◌, ◌≡◌, ◌≤◌, ◌<◌, refl, List, ◌++◌, length, arith}
use libwake.Dgram.{rd16, rd32, wr16, wr32}
use libwake.Dgram.Buffer.{get_or-behind, get_or-at, get_or-inside}

pub rd16-wr16 : (v : ℕ) (rest : List ℕ) → v < 2 ^ 16 → rd16 (wr16 v ++ rest) 0 ≡ v
unfolding rd16 wr16
rd16-wr16 v rest h = omega arith

pub rd32-wr32 : (v : ℕ) (rest : List ℕ) → v < 2 ^ 32 → rd32 (wr32 v ++ rest) 0 ≡ v
unfolding rd32 wr32
rd32-wr32 v rest h = omega arith

pub rd16-behind : (xs ys : List ℕ) (n k : ℕ) → length xs ≡ n → rd16 (xs ++ ys) (n + k) ≡ rd16 ys k
unfolding rd16
rd16-behind xs ys n k h =
    rw (get_or-behind xs ys n k h, get_or-at xs ys n (k + 1) (n + k + 1) h (omega arith)) refl

pub rd32-behind : (xs ys : List ℕ) (n k : ℕ) → length xs ≡ n → rd32 (xs ++ ys) (n + k) ≡ rd32 ys k
unfolding rd32
rd32-behind xs ys n k h =
    rw
      (
        get_or-behind xs ys n k h,
        get_or-at xs ys n (k + 1) (n + k + 1) h (omega arith),
        get_or-at xs ys n (k + 2) (n + k + 2) h (omega arith),
        get_or-at xs ys n (k + 3) (n + k + 3) h (omega arith),
      )
      refl

pub rd16-inside : (xs ys : List ℕ) (k : ℕ) → k + 2 ≤ length xs → rd16 (xs ++ ys) k ≡ rd16 xs k
unfolding rd16
rd16-inside xs ys k h =
    rw (get_or-inside xs ys k (omega arith), get_or-inside xs ys (k + 1) (omega arith)) refl

pub rd32-inside : (xs ys : List ℕ) (k : ℕ) → k + 4 ≤ length xs → rd32 (xs ++ ys) k ≡ rd32 xs k
unfolding rd32
rd32-inside xs ys k h =
    rw
      (
        get_or-inside xs ys k (omega arith),
        get_or-inside xs ys (k + 1) (omega arith),
        get_or-inside xs ys (k + 2) (omega arith),
        get_or-inside xs ys (k + 3) (omega arith),
      )
      refl
