-- ===== src/Entity/Contract.antt =====
-- wake_entity_valid against the invariants of the header, and what the hash is taken of.
use libwake.Common.{
  ℕ, zero, suc, ◌+◌, ◌-◌, ◌≡◌, ◌≤◌, ◌<◌, ◌⊎◌, refl, sym, ◌∙◌, ap, true, false, ◌&&◌, not, List, [],
  ◌∷◌, ◌++◌, ◌==◌, ltb, length, take, drop, replicate, arith, Bool-cases, inl, inr,
}
use libwake.Entity.Types.{Entity, fixed_len}
use libwake.Entity.Init.{le_bytes}
use libwake.Entity.Ops.{all_zero, image, hashed_bytes, is_hashed, has_length, valid}
use libwake.Entity.Image.{header_of, same_fields}

zeros : (xs : List ℕ) → all_zero xs ≡ true → xs ≡ replicate (length xs) 0
unfolding all_zero
zeros [] h = refl
zeros (x ∷ xs) h =
    let head : x ≡ 0 = ground (arith, h) in
    let tail = zeros xs (ground (arith, h)) in rw (head, sym tail) refl

zeros_all : (n : ℕ) → all_zero (replicate n 0) ≡ true
unfolding all_zero
zeros_all zero = refl
zeros_all (suc n) = zeros_all n

take-drop : (n : ℕ) (xs : List ℕ) → take n xs ++ drop n xs ≡ xs
take-drop zero xs = refl
take-drop (suc n) [] = refl
take-drop (suc n) (x ∷ xs) = ap (λ (r : List ℕ). x ∷ r) (take-drop n xs)

length-drop : (n : ℕ) (xs : List ℕ) → length (drop n xs) ≡ length xs - n
length-drop zero xs = omega arith
length-drop (suc n) [] = omega arith
length-drop (suc n) (x ∷ xs) = omega (arith, length-drop n xs)

-- The invariants that the header states, and the exact length of a type that has one.
pub record IsEntity (e : Entity) : Type 0 where
  pub eclass : e.eclass < 3
  pub value_len : e.value_len ≤ 56
  pub reserved : e.reserved ≡ 0
  pub padding : drop e.value_len e.value ≡ replicate (length (drop e.value_len e.value)) 0
  pub exact : is_hashed e ≡ false → (fixed_len e.etype ≡ 0) ⊎ (e.value_len ≡ fixed_len e.etype)

exact_of : (l f : ℕ) → not (ltb 0 f && not (l == f)) ≡ true → (f ≡ 0) ⊎ (l ≡ f)
exact_of l zero h = inl refl
exact_of l (suc f) h = inr (ground (arith, h))

of_exact : (l f : ℕ) → (f ≡ 0) ⊎ (l ≡ f) → not (ltb 0 f && not (l == f)) ≡ true
of_exact l f (inl h) = rw h refl
of_exact l f (inr h) = ground (arith, h)

-- The validation answers true exactly where the invariants of the header hold and a type with a fixed
-- length has it, unless the entity is flagged as hashed, whose length is then any up to 56.
pub valid-IsEntity : (e : Entity) → (valid e ≡ true → IsEntity e) × (IsEntity e → valid e ≡ true)
unfolding valid
valid-IsEntity e = (
  (λ h. record {
    eclass = ground (arith, h);
    value_len = ground (arith, h);
    reserved = ground (arith, h);
    padding = zeros (drop e.value_len e.value) (ground (arith, h));
    exact = λ plain. exact_of e.value_len (fixed_len e.etype) (ground (arith, h, plain));
  }),
  (λ i.
      let class = i.eclass in
      let len = i.value_len in
      let zero_word = i.reserved in
      let rest : all_zero (drop e.value_len e.value) ≡ true =
        ap all_zero i.padding ∙ zeros_all (length (drop e.value_len e.value)) in
      elim (Bool-cases (is_hashed e)) [
        | inl hashed ↦ ground (arith, class, len, zero_word, rest, hashed)
        | inr plain ↦
            let exact : has_length e ≡ true =
              of_exact e.value_len (fixed_len e.etype) (i.exact plain) in
            ground (arith, class, len, zero_word, rest, plain, exact)
      ]),
)

-- What is hashed is the image of the entity without its padding.
hashed_bytes-image :
    (e : Entity) → hashed_bytes e ≡ image (record e { value = take e.value_len e.value })
unfolding hashed_bytes image le_bytes
hashed_bytes-image e =
    let eight : 8 + e.value_len ≡ suc (suc (suc (suc (suc (suc (suc (suc e.value_len))))))) =
      omega arith in
    rw eight refl

padded :
    (e : Entity)
    → IsEntity e
    → length e.value ≡ 56
    → e.value ≡ take e.value_len e.value ++ replicate (56 - e.value_len) 0
padded e i l =
    let whole = take-drop e.value_len e.value in
    let rest : length (drop e.value_len e.value) ≡ 56 - e.value_len =
      omega (arith, length-drop e.value_len e.value, l) in
    sym whole
    ∙ ap (λ (r : List ℕ). take e.value_len e.value ++ r)
        (i.padding ∙ ap (λ (n : ℕ). replicate n 0) rest)

-- The hash of an entity is taken of bytes that determine it: valid entities with the same hashed bytes
-- are equal, if their values have their 56 bytes.
pub hashed_bytes-determines :
    (a b : Entity)
    → valid a ≡ true
    → valid b ≡ true
    → length a.value ≡ 56
    → length b.value ≡ 56
    → hashed_bytes a ≡ hashed_bytes b
    → a ≡ b
hashed_bytes-determines a b va vb la lb h =
    let ia = (valid-IsEntity a).0 va in
    let ib = (valid-IsEntity b).0 vb in
    let (s, v) =
      header_of a b (take a.value_len a.value) (take b.value_len b.value)
        (omega (arith, ia.reserved)) (omega (arith, ib.reserved))
        (sym (hashed_bytes-image a) ∙ h ∙ hashed_bytes-image b) in
    same_fields a b s.eclass s.etype s.value_len s.flags s.reserved (
      padded a ia la
      ∙ ap (λ (xs : List ℕ). xs ++ replicate (56 - a.value_len) 0) v
      ∙ ap (λ (n : ℕ). take b.value_len b.value ++ replicate (56 - n) 0) s.value_len
      ∙ sym (padded b ib lb))
