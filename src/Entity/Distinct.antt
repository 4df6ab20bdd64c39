-- ===== src/Entity/Distinct.antt =====
-- What entities stand for: the strings of one type, and the bytes that are hashed.
use libwake.Common.{
  ℕ, ◌-◌, ◌≡◌, ◌≤◌, refl, sym, ◌∙◌, ap, true, List, [], ◌∷◌, ◌++◌, leb, if◌then◌else◌, length, take,
  replicate, arith, Bool-cases, inl, inr,
}
use libwake.Entity.Types.{Entity, value_max}
use libwake.Entity.Init.{filled, init_str}
use libwake.Entity.Ops.{entity_eq}
use libwake.Entity.Image.{entity_eq-reflects}

take-length : (xs ys : List ℕ) → take (length xs) (xs ++ ys) ≡ xs
take-length [] ys = refl
take-length (x ∷ xs) ys = ap (λ (r : List ℕ). x ∷ r) (take-length xs ys)

-- A padded list with its length determines the list.
unpadded : (v w p q : List ℕ) → length v ≡ length w → v ++ p ≡ w ++ q → v ≡ w
unpadded v w p q l e =
    sym (take-length v p)
    ∙ ap (take (length v)) e
    ∙ ap (λ (n : ℕ). take n (w ++ q)) l
    ∙ take-length w q

reserved_of_str : (key : List ℕ) (ec et : ℕ) (val : List ℕ) → (init_str key ec et val).reserved ≡ 0
unfolding init_str
reserved_of_str key ec et val = elim (Bool-cases (leb (length val) value_max)) [
  | inl short ↦ rw short refl
  | inr long ↦ rw long refl
]

flags_of_str :
    (key : List ℕ) (ec et : ℕ) (val : List ℕ)
    → (init_str key ec et val).flags ≡ (if leb (length val) value_max then 0 else 1)
unfolding init_str
flags_of_str key ec et val = elim (Bool-cases (leb (length val) value_max)) [
  | inl short ↦ rw short refl
  | inr long ↦ rw long refl
]

short_str :
    (key : List ℕ) (ec et : ℕ) (val : List ℕ)
    → length val ≤ 56
    → init_str key ec et val ≡ filled ec et 0 val
unfolding init_str
short_str key ec et val l =
    let short : leb (length val) value_max ≡ true = ground arith in rw short refl

-- The entity of a string that fits equals the entity of another string, of any length, only if the
-- strings are equal.
pub init_str-determines :
    (key : List ℕ) (ec et : ℕ) (v w : List ℕ)
    → length v ≤ 56
    → entity_eq (init_str key ec et v) (init_str key ec et w) ≡ true
    → v ≡ w
init_str-determines key ec et v w lv h =
    let a = init_str key ec et v in
    let b = init_str key ec et w in
    let same : a ≡ b =
      (entity_eq-reflects a b (omega (arith, reserved_of_str key ec et v))
          (omega (arith, reserved_of_str key ec et w))).0
        h in
    let flags =
      sym (flags_of_str key ec et v)
      ∙ ap (λ (e : Entity). e.flags) same
      ∙ flags_of_str key ec et w in
    let lw : length w ≤ 56 = ground (arith, flags, lv) in
    let plain : filled ec et 0 v ≡ filled ec et 0 w =
      sym (short_str key ec et v lv) ∙ same ∙ short_str key ec et w lw in
    let len : length v ≡ length w = omega (arith, ap (λ (e : Entity). e.value_len) plain, lv, lw) in
    unpadded v w (replicate (56 - length v) 0) (replicate (56 - length w) 0) len
      (ap (λ (e : Entity). e.value) plain)
