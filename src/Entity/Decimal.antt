-- ===== src/Entity/Decimal.antt =====
-- The fuel of `decimal` and the length of a hexadecimal text.
use libwake.Common.{
  ℕ, zero, suc, ◌+◌, ◌*◌, ◌/◌, ◌%◌, ◌^◌, ◌≡◌, ◌≤◌, ◌<◌, refl, ◌∙◌, ap, true, List, [], ◌∷◌, ltb,
  length, arith, Bool-cases, inl, inr,
}
use libwake.Entity.Format.{Text, digit, decimal_loop, decimal, hex_loop}

pow_suc : (k : ℕ) → 10 ^ suc k ≡ 10 * 10 ^ k
pow_suc k = omega arith

one_more :
    (k n : ℕ) (text : Text)
    → n < 10 ^ suc k
    → decimal_loop (suc (suc k)) n text ≡ decimal_loop (suc k) n text
unfolding decimal_loop
one_more zero n text h = let small : ltb n 10 ≡ true = ground (arith, h) in rw small refl
one_more (suc k) n text h = elim (Bool-cases (ltb n 10)) [
  | inl small ↦ rw small refl
  | inr large ↦
      let bound : n / 10 < 10 ^ suc k = omega (arith, h, pow_suc (suc k)) in
      rw large (one_more k (n / 10) (digit (n % 10) ∷ text) bound)
]

enough_digits : (extra : ℕ) → 2 ^ 64 ≤ 10 ^ suc (extra + 19)
enough_digits zero = omega arith
enough_digits (suc extra) =
    let same : suc (suc extra + 19) ≡ suc (suc (extra + 19)) = omega arith in
    omega (arith, enough_digits extra, ap (λ (k : ℕ). 10 ^ k) same, pow_suc (suc (extra + 19)))

-- For a number of 64 bits more fuel than the 20 of `decimal` gives the same digits.
pub decimal_stable : (extra n : ℕ) → n < 2 ^ 64 → decimal_loop (suc (extra + 19)) n [] ≡ decimal n
unfolding decimal
decimal_stable zero n h = refl
decimal_stable (suc extra) n h =
    let same : suc (suc extra + 19) ≡ suc (suc (extra + 19)) = omega arith in
    ap (λ (k : ℕ). decimal_loop k n []) same
    ∙ one_more (extra + 19) n [] (omega (arith, h, enough_digits extra))
    ∙ decimal_stable extra n h

-- With room for two digits for each byte and the NUL, as many are written.
pub length-hex_loop :
    (bytes : List ℕ) (out bufsz : ℕ)
    → out + 2 * length bytes < bufsz
    → length (hex_loop bytes out bufsz) ≡ 2 * length bytes
unfolding hex_loop
length-hex_loop [] out bufsz h = omega arith
length-hex_loop (x ∷ xs) out bufsz h =
    let room : ltb (out + 2) bufsz ≡ true = ground (arith, h) in
    rw room (omega (arith, length-hex_loop xs (out + 2) bufsz (omega (arith, h))))
