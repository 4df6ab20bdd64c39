-- ===== src/Dgram/Buffer.antt =====
-- Reading from memory that is a concatenation.
use libwake.Common.{
  ℕ, zero, suc, ◌+◌, ◌≡◌, ◌≤◌, ◌<◌, refl, ◌∙◌, ap, List, [], ◌∷◌, ◌++◌, length, get_or, take, drop,
  arith,
}
use libwake.Dgram.{slice}

-- Behind a prefix of `n` entries.
pub get_or-behind :
    (xs ys : List ℕ) (n k : ℕ) → length xs ≡ n → get_or (xs ++ ys) (n + k) 0 ≡ get_or ys k 0
get_or-behind [] ys n k h = ap (λ (i : ℕ). get_or ys i 0) (omega (arith, h))
get_or-behind (x ∷ xs) ys zero k h = absurd (omega (arith, h))
get_or-behind (x ∷ xs) ys (suc n) k h =
    let e : suc n + k ≡ suc (n + k) = omega arith in
    rw e (get_or-behind xs ys n k (omega (arith, h)))

pub get_or-at :
    (xs ys : List ℕ) (n k i : ℕ) → length xs ≡ n → i ≡ n + k → get_or (xs ++ ys) i 0 ≡ get_or ys k 0
get_or-at xs ys n k i h e = ap (λ (j : ℕ). get_or (xs ++ ys) j 0) e ∙ get_or-behind xs ys n k h

pub drop-behind : (xs ys : List ℕ) (n k : ℕ) → length xs ≡ n → drop (n + k) (xs ++ ys) ≡ drop k ys
drop-behind [] ys n k h = ap (λ (i : ℕ). drop i ys) (omega (arith, h))
drop-behind (x ∷ xs) ys zero k h = absurd (omega (arith, h))
drop-behind (x ∷ xs) ys (suc n) k h =
    let e : suc n + k ≡ suc (n + k) = omega arith in rw e (drop-behind xs ys n k (omega (arith, h)))

pub slice-behind :
    (xs ys : List ℕ) (n k m : ℕ) → length xs ≡ n → slice (xs ++ ys) (n + k) m ≡ slice ys k m
unfolding slice
slice-behind xs ys n k m h = ap (take m) (drop-behind xs ys n k h)

-- The front of a concatenation.
pub take-front : (xs ys : List ℕ) (n : ℕ) → length xs ≡ n → take n (xs ++ ys) ≡ xs
take-front [] ys zero h = refl
take-front [] ys (suc n) h = absurd (omega (arith, h))
take-front (x ∷ xs) ys zero h = absurd (omega (arith, h))
take-front (x ∷ xs) ys (suc n) h =
    ap (λ (r : List ℕ). x ∷ r) (take-front xs ys n (omega (arith, h)))

pub slice-front : (xs ys : List ℕ) (n : ℕ) → length xs ≡ n → slice (xs ++ ys) 0 n ≡ xs
unfolding slice
slice-front xs ys n h = take-front xs ys n h

-- Within the first part nothing of the second is read.
pub get_or-inside : (xs ys : List ℕ) (k : ℕ) → k < length xs → get_or (xs ++ ys) k 0 ≡ get_or xs k 0
get_or-inside [] ys k h = absurd (omega (arith, h))
get_or-inside (x ∷ xs) ys zero h = refl
get_or-inside (x ∷ xs) ys (suc k) h = get_or-inside xs ys k (omega (arith, h))

pub slice-inside :
    (xs ys : List ℕ) (k n : ℕ) → k + n ≤ length xs → slice (xs ++ ys) k n ≡ slice xs k n
unfolding slice
slice-inside xs ys k zero h = refl
slice-inside [] ys k (suc n) h = absurd (omega (arith, h))
slice-inside (x ∷ xs) ys zero (suc n) h =
    ap (λ (r : List ℕ). x ∷ r) (slice-inside xs ys zero n (omega (arith, h)))
slice-inside (x ∷ xs) ys (suc k) (suc n) h = slice-inside xs ys k (suc n) (omega (arith, h))

pub length-slice : (xs : List ℕ) (k n : ℕ) → k + n ≤ length xs → length (slice xs k n) ≡ n
unfolding slice
length-slice xs k zero h = refl
length-slice [] k (suc n) h = absurd (omega (arith, h))
length-slice (x ∷ xs) zero (suc n) h = omega (arith, length-slice xs zero n (omega (arith, h)))
length-slice (x ∷ xs) (suc k) (suc n) h = length-slice xs k (suc n) (omega (arith, h))
