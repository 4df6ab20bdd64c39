-- ===== src/Common/Lists.antt =====
-- Arrays as lists measured and indexed by native numbers, under the library's names.
use Prim.Native.Nat.{ℕ, zero, suc, ◌+◌, ◌<◌, ◌≤◌, min}
use mathlib.Core.Path.{◌≡◌, refl, ap}
use mathlib.Core.Logic.{◌≢◌}
use mathlib.Core.Bool.{Bool}
use mathlib.Core.List.{List, [], ◌∷◌, ◌++◌}
use mathlib.Core.Option.{Option, none, some}
use native.Mathlib.Omega.{arith}
use libwake.Common.Tests.{if◌then◌else◌}

module _ {ℓ} {A : Type ℓ} where
  abbrev pub length : List A → ℕ
  length [] = 0
  length (x ∷ xs) = suc (length xs)

  abbrev pub get_elem? : List A → ℕ → Option A
  get_elem? [] i = none
  get_elem? (x ∷ xs) zero = some x
  get_elem? (x ∷ xs) (suc i) = get_elem? xs i

  abbrev pub get_or : List A → ℕ → A → A
  get_or [] i d = d
  get_or (x ∷ xs) zero d = x
  get_or (x ∷ xs) (suc i) d = get_or xs i d

  -- A write out of bounds changes nothing.
  abbrev pub set : List A → ℕ → A → List A
  set [] i v = []
  set (x ∷ xs) zero v = v ∷ xs
  set (x ∷ xs) (suc i) v = x ∷ set xs i v

  abbrev pub take : ℕ → List A → List A
  take zero xs = []
  take (suc n) [] = []
  take (suc n) (x ∷ xs) = x ∷ take n xs

  abbrev pub drop : ℕ → List A → List A
  drop zero xs = xs
  drop (suc n) [] = []
  drop (suc n) (x ∷ xs) = drop n xs

  abbrev pub replicate : ℕ → A → List A
  replicate zero a = []
  replicate (suc n) a = a ∷ replicate n a

  -- the elements that pass a test, and how many there are
  abbrev pub keep : (A → Bool) → List A → List A
  keep p [] = []
  keep p (x ∷ xs) = if p x then x ∷ keep p xs else keep p xs

  abbrev pub count_if : (A → Bool) → List A → ℕ
  count_if p [] = 0
  count_if p (x ∷ xs) = if p x then suc (count_if p xs) else count_if p xs

module _ {ℓ} {A : Type ℓ} where
  pub length-append : (xs ys : List A) → length (xs ++ ys) ≡ length xs + length ys
  length-append [] ys = omega arith
  length-append (x ∷ xs) ys = omega (arith, length-append xs ys)

  pub length-set : (xs : List A) (i : ℕ) (v : A) → length (set xs i v) ≡ length xs
  length-set [] i v = refl
  length-set (x ∷ xs) zero v = refl
  length-set (x ∷ xs) (suc i) v = ap suc (length-set xs i v)

  pub get_or-set_self :
      (xs : List A) (i : ℕ) (v d : A) → i < length xs → get_or (set xs i v) i d ≡ v
  get_or-set_self [] i v d h = absurd (omega arith)
  get_or-set_self (x ∷ xs) zero v d h = refl
  get_or-set_self (x ∷ xs) (suc i) v d h = get_or-set_self xs i v d (omega arith)

  pub get_or-set_ne :
      (xs : List A) (i j : ℕ) (v d : A) → i ≢ j → get_or (set xs i v) j d ≡ get_or xs j d
  get_or-set_ne [] i j v d h = refl
  get_or-set_ne (x ∷ xs) zero zero v d h = absurd (h refl)
  get_or-set_ne (x ∷ xs) zero (suc j) v d h = refl
  get_or-set_ne (x ∷ xs) (suc i) zero v d h = refl
  get_or-set_ne (x ∷ xs) (suc i) (suc j) v d h = get_or-set_ne xs i j v d (λ e. h (ap suc e))

  pub get_elem?-eq-get_or :
      (xs : List A) (i : ℕ) (d : A) → i < length xs → get_elem? xs i ≡ some (get_or xs i d)
  get_elem?-eq-get_or [] i d h = absurd (omega arith)
  get_elem?-eq-get_or (x ∷ xs) zero d h = refl
  get_elem?-eq-get_or (x ∷ xs) (suc i) d h = get_elem?-eq-get_or xs i d (omega arith)

  pub length-keep-le : (p : A → Bool) (xs : List A) → length (keep p xs) ≤ length xs
  length-keep-le p [] = omega arith
  length-keep-le p (x ∷ xs) = ground (arith, length-keep-le p xs)

  pub count_if-le : (p : A → Bool) (xs : List A) → count_if p xs ≤ length xs
  count_if-le p [] = omega arith
  count_if-le p (x ∷ xs) = ground (arith, count_if-le p xs)

  pub count_if-append :
      (p : A → Bool) (xs ys : List A) → count_if p (xs ++ ys) ≡ count_if p xs + count_if p ys
  count_if-append p [] ys = omega arith
  count_if-append p (x ∷ xs) ys = ground (arith, count_if-append p xs ys)

  -- A write replaces one element in the count.
  pub count_if-set :
      (p : A → Bool) (xs : List A) (i : ℕ) (v d : A)
      → i < length xs
      → count_if p (set xs i v) + count_if p (get_or xs i d ∷ [])
        ≡ count_if p xs + count_if p (v ∷ [])
  count_if-set p [] i v d h = absurd (omega arith)
  count_if-set p (x ∷ xs) zero v d h = ground arith
  count_if-set p (x ∷ xs) (suc i) v d h = ground (arith, count_if-set p xs i v d)

  -- In range the default is not read.
  pub get_or_default :
      (xs : List A) (i : ℕ) (d e : A) → i < length xs → get_or xs i d ≡ get_or xs i e
  get_or_default [] i d e h = absurd (omega arith)
  get_or_default (x ∷ xs) zero d e h = refl
  get_or_default (x ∷ xs) (suc i) d e h = get_or_default xs i d e (omega arith)

  pub get_or-append :
      (xs : List A) (v : A) (i : ℕ) (d : A)
      → i < length xs
      → get_or (xs ++ v ∷ []) i d ≡ get_or xs i d
  get_or-append [] v i d h = absurd (omega arith)
  get_or-append (x ∷ xs) v zero d h = refl
  get_or-append (x ∷ xs) v (suc i) d h = get_or-append xs v i d (omega arith)

  pub get_or-append_last : (xs : List A) (v d : A) → get_or (xs ++ v ∷ []) (length xs) d ≡ v
  get_or-append_last [] v d = refl
  get_or-append_last (x ∷ xs) v d = get_or-append_last xs v d

pub take-drop {ℓ} :
    {A : Type ℓ} (xs : List A) (n k : ℕ) (d : A)
    → k < length xs
    → take (suc n) (drop k xs) ≡ get_or xs k d ∷ take n (drop (k + 1) xs)
take-drop [] n k d h = absurd (omega arith)
take-drop (x ∷ xs) n zero d h = refl
take-drop (x ∷ xs) n (suc k) d h =
    let e : suc k + 1 ≡ suc (k + 1) = omega arith in rw e (take-drop xs n k d (omega arith))

pub take-all {ℓ} : {A : Type ℓ} (xs : List A) → take (length xs) xs ≡ xs
take-all [] = refl
take-all (x ∷ xs) = ap (λ r. x ∷ r) (take-all xs)

pub nil_of_length {ℓ} : {A : Type ℓ} (xs : List A) → length xs ≡ 0 → xs ≡ []
nil_of_length [] h = refl
nil_of_length (x ∷ xs) h = absurd (omega arith)

module _ {ℓ} {A : Type ℓ} where
  pub count_if-take-le :
      (p : A → Bool) (n : ℕ) (xs : List A) → count_if p (take n xs) ≤ count_if p xs
  count_if-take-le p zero xs = omega arith
  count_if-take-le p (suc n) [] = omega arith
  count_if-take-le p (suc n) (x ∷ xs) = ground (arith, count_if-take-le p n xs)

  pub length-take : (n : ℕ) (xs : List A) → length (take n xs) ≡ min n (length xs)
  length-take zero xs = omega arith
  length-take (suc n) [] = omega arith
  length-take (suc n) (x ∷ xs) = omega (arith, length-take n xs)

  pub get_elem?-take : (n k : ℕ) (xs : List A) → k < n → get_elem? (take n xs) k ≡ get_elem? xs k
  get_elem?-take zero k xs h = absurd (omega arith)
  get_elem?-take (suc n) k [] h = refl
  get_elem?-take (suc n) zero (x ∷ xs) h = refl
  get_elem?-take (suc n) (suc k) (x ∷ xs) h = get_elem?-take n k xs (omega arith)
