-- ===== src/Entity/Image.antt =====
-- Equality of structs byte by byte.
use libwake.Common.{
  ℕ, ◌%◌, ◌/◌, ◌^◌, ◌≡◌, ◌<◌, sym, ◌∙◌, ap, true, List, get_or, drop, arith, mem_eq, mem_eq→eq,
  mem_eq_refl,
}
use libwake.Entity.Types.{Entity}
use libwake.Entity.Init.{le_bytes}
use libwake.Entity.Ops.{image, entity_eq}

-- Structs with equal fields are equal.
pub same_fields :
    (a b : Entity)
    → a.eclass ≡ b.eclass
    → a.etype ≡ b.etype
    → a.value_len ≡ b.value_len
    → a.flags ≡ b.flags
    → a.reserved ≡ b.reserved
    → a.value ≡ b.value
    → a ≡ b
same_fields a b c t l f r v = λ i. record {
  eclass = c i;
  etype = t i;
  value_len = l i;
  flags = f i;
  reserved = r i;
  value = v i;
}

-- The header of an image, and what stands behind it.
pub record SameHeader (a b : Entity) : Type 0 where
  pub eclass : a.eclass ≡ b.eclass
  pub etype : a.etype ≡ b.etype
  pub value_len : a.value_len ≡ b.value_len
  pub flags : a.flags ≡ b.flags
  pub reserved : a.reserved ≡ b.reserved

-- The bytes of a word of 32 bits determine it.
word_of_bytes :
    (a b : ℕ)
    → a < 2 ^ 32
    → b < 2 ^ 32
    → a % 256 ≡ b % 256
    → (a / 256) % 256 ≡ (b / 256) % 256
    → (a / 256 / 256) % 256 ≡ (b / 256 / 256) % 256
    → (a / 256 / 256 / 256) % 256 ≡ (b / 256 / 256 / 256) % 256
    → a ≡ b
word_of_bytes a b ha hb h0 h1 h2 h3 = omega arith

byte : (k : ℕ) (xs ys : List ℕ) → xs ≡ ys → get_or xs k 0 ≡ get_or ys k 0
byte k xs ys e = ap (λ (zs : List ℕ). get_or zs k 0) e

-- Equal images, whatever of the values follows the header, have equal headers.
pub header_of :
    (a b : Entity) (va vb : List ℕ)
    → a.reserved < 2 ^ 32
    → b.reserved < 2 ^ 32
    → image (record a { value = va }) ≡ image (record b { value = vb })
    → SameHeader a b × (va ≡ vb)
unfolding image le_bytes
header_of a b va vb ra rb e =
    let x = image (record a { value = va }) in
    let y = image (record b { value = vb }) in
    (
      record {
        eclass = byte 0 x y e;
        etype = byte 1 x y e;
        value_len = byte 2 x y e;
        flags = byte 3 x y e;
        reserved =
            word_of_bytes a.reserved b.reserved ra rb (byte 4 x y e) (byte 5 x y e) (byte 6 x y e)
              (byte 7 x y e);
      },
      ap (drop 8) e,
    )

-- The comparison of the 64 bytes answers true exactly where all fields are equal, if the reserved
-- words have 32 bits.
pub entity_eq-reflects :
    (a b : Entity)
    → a.reserved < 2 ^ 32
    → b.reserved < 2 ^ 32
    → (entity_eq a b ≡ true → a ≡ b) × (a ≡ b → entity_eq a b ≡ true)
unfolding entity_eq
entity_eq-reflects a b ra rb = (
  (λ h.
      let (s, v) = header_of a b a.value b.value ra rb (mem_eq→eq (image a) (image b) h) in
      same_fields a b s.eclass s.etype s.value_len s.flags s.reserved v),
  (λ p. ap (λ (x : Entity). mem_eq (image a) (image x)) (sym p) ∙ mem_eq_refl (image a)),
)
