-- ===== src/Entity/Valid.antt =====
-- The validation of what the init functions make.
use libwake.Common.{
  ℕ, zero, suc, ◌-◌, ◌≡◌, ◌≤◌, ◌<◌, refl, sym, ◌∙◌, ap, Bool, true, false, ◌&&◌, not, List, [], ◌∷◌,
  ◌++◌, ◌==◌, ltb, leb, if◌then◌else◌, length, drop, replicate, arith, Bool-cases, inl, inr, u8,
}
use libwake.Entity.Types.{Entity, value_max, class_count, hashed_flag, with, fixed_len, is_string}
use libwake.Entity.Siphash.{siphash_2_4}
use libwake.Entity.Init.{
  bytes_at, le_bytes, filled, init_ipv4, init_ipv6, init_str, init_user, init_machine, init_email,
  init_domain, init_service, init_path, init_url, init_md5, init_sha1, init_sha256, init_port,
  init_proto, init_size, init_sig_id,
}
use libwake.Entity.Ops.{all_zero, is_hashed, has_length, valid}

pub length-bytes_at : (n : ℕ) (mem : List ℕ) → length (bytes_at n mem) ≡ n
unfolding bytes_at
length-bytes_at zero mem = refl
length-bytes_at (suc n) [] = ap suc (length-bytes_at n [])
length-bytes_at (suc n) (x ∷ xs) = ap suc (length-bytes_at n xs)

pub length-le_bytes : (n v : ℕ) → length (le_bytes n v) ≡ n
unfolding le_bytes
length-le_bytes zero v = refl
length-le_bytes (suc n) v = ap suc (length-le_bytes n _)

drop-length : (xs ys : List ℕ) → drop (length xs) (xs ++ ys) ≡ ys
drop-length [] ys = refl
drop-length (x ∷ xs) ys = drop-length xs ys

all_zero-replicate : (n : ℕ) → all_zero (replicate n 0) ≡ true
unfolding all_zero
all_zero-replicate zero = refl
all_zero-replicate (suc n) = all_zero-replicate n

-- A filled struct is valid, if its class is known, the bytes fit, and they are as many as the type says
-- or it is flagged as hashed.
filled-valid :
    (ec et flags : ℕ) (bytes : List ℕ)
    → ec < 3
    → length bytes ≤ 56
    → (if not (is_hashed (filled ec et flags bytes))
        then has_length (filled ec et flags bytes)
        else true)
      ≡ true
    → valid (filled ec et flags bytes) ≡ true
unfolding valid
filled-valid ec et flags bytes c l h =
    let class : leb class_count (u8 ec) ≡ false = ground arith in
    let len : u8 (length bytes) ≡ length bytes = omega arith in
    let fits : ltb value_max (length bytes) ≡ false = ground arith in
    let rest : all_zero (drop (length bytes) (bytes ++ replicate (56 - length bytes) 0)) ≡ true =
      ap all_zero (drop-length bytes (replicate (56 - length bytes) 0))
      ∙ all_zero-replicate (56 - length bytes) in
    rw (class, len, fits, rest) (rw len at h)

-- A struct that is not flagged, with as many bytes as its type says, or of a type with no fixed length.
plain_valid :
    (ec et n : ℕ) (bytes : List ℕ)
    → ec < 3
    → length bytes ≡ n
    → n ≤ 56
    → not (ltb 0 (fixed_len (u8 et)) && not (n == fixed_len (u8 et))) ≡ true
    → valid (filled ec et 0 bytes) ≡ true
plain_valid ec et n bytes c l fits exact =
    let len : u8 (length bytes) ≡ n = omega (arith, l, fits) in
    filled-valid ec et 0 bytes c (omega (arith, l, fits)) (rw len exact)

-- Strings, of a type with no fixed length.
str_valid :
    (key : List ℕ) (ec et : ℕ) (val : List ℕ)
    → ec < 3
    → fixed_len (u8 et) ≡ 0
    → valid (init_str key ec et val) ≡ true
unfolding init_str
str_valid key ec et val c none_fixed = elim (Bool-cases (leb (length val) value_max)) [
  | inl short ↦
      rw short
        (plain_valid ec et (length val) val c refl (ground (arith, short)) (rw none_fixed refl))
  | inr long ↦
      let hash = le_bytes 8 (siphash_2_4 val key) in
      rw long (
        filled-valid ec et hashed_flag hash c
          (omega (arith, length-le_bytes 8 (siphash_2_4 val key))) refl)
]

-- The entities that the init functions make, by their class: a call of each function, with its
-- arguments.
pub data Made (key : List ℕ) : ℕ → Entity → Type 0 where
  ipv4 : (ec addr : ℕ) → Made key ec (init_ipv4 ec addr)
  ipv6 : (ec : ℕ) (addr : List ℕ) → Made key ec (init_ipv6 ec addr)
  str : (ec et : ℕ) (val : List ℕ) → Made key ec (init_str key ec et val)
  user : (ec : ℕ) (val : List ℕ) → Made key ec (init_user key ec val)
  machine : (ec : ℕ) (val : List ℕ) → Made key ec (init_machine key ec val)
  email : (ec : ℕ) (val : List ℕ) → Made key ec (init_email key ec val)
  domain : (ec : ℕ) (val : List ℕ) → Made key ec (init_domain key ec val)
  service : (ec : ℕ) (val : List ℕ) → Made key ec (init_service key ec val)
  path : (ec : ℕ) (val : List ℕ) → Made key ec (init_path key ec val)
  url : (ec : ℕ) (val : List ℕ) → Made key ec (init_url key ec val)
  md5 : (hash : List ℕ) → Made key with (init_md5 hash)
  sha1 : (hash : List ℕ) → Made key with (init_sha1 hash)
  sha256 : (hash : List ℕ) → Made key with (init_sha256 hash)
  port : (ec n : ℕ) → Made key ec (init_port ec n)
  proto : (n : ℕ) → Made key with (init_proto n)
  size : (n : ℕ) → Made key with (init_size n)
  sig_id : (n : ℕ) → Made key with (init_sig_id n)

other_type : (et n : ℕ) → is_string et ≡ true → is_string n ≡ false → (et == n) ≡ false
other_type et n h other = elim (Bool-cases (et == n)) [
  | inl same ↦
      let e : et ≡ n = ground (arith, same) in
      absurd (ground (arith, sym (ap is_string e) ∙ h, other))
  | inr apart ↦ apart
]

-- A string type has no fixed length.
string_free : (et : ℕ) → is_string et ≡ true → fixed_len et ≡ 0
unfolding is_string fixed_len
string_free et h =
    let o = λ (n : ℕ) (other : is_string n ≡ false). other_type et n h other in
    rw
      (
        o 0x10 refl,
        o 0x11 refl,
        o 0x40 refl,
        o 0x41 refl,
        o 0x42 refl,
        o 0x50 refl,
        o 0x51 refl,
        o 0x52 refl,
        o 0x53 refl,
      )
      refl

-- Is this a call of wake_entity_init_str for a type that is not a string type? The function takes any.
unfoldable pub is_misuse : {key : List ℕ} {ec : ℕ} {e : Entity} → Made key ec e → Bool
is_misuse (ipv4 ec addr) = false
is_misuse (ipv6 ec addr) = false
is_misuse (str ec et val) = not (is_string (u8 et))
is_misuse (user ec val) = false
is_misuse (machine ec val) = false
is_misuse (email ec val) = false
is_misuse (domain ec val) = false
is_misuse (service ec val) = false
is_misuse (path ec val) = false
is_misuse (url ec val) = false
is_misuse (md5 hash) = false
is_misuse (sha1 hash) = false
is_misuse (sha256 hash) = false
is_misuse (port ec n) = false
is_misuse (proto n) = false
is_misuse (size n) = false
is_misuse (sig_id n) = false

-- Every entity that an init function makes, for a known class and any other arguments, passes the
-- validation, strings of any length with any key among them, provided that wake_entity_init_str is
-- called with a string type.
pub Made-valid :
    (key : List ℕ) {ec : ℕ} {e : Entity} (m : Made key ec e)
    → ec < 3
    → is_misuse m ≡ false
    → valid e ≡ true
unfolding init_ipv4 init_ipv6 init_md5 init_sha1 init_sha256 init_port init_proto init_size
    init_sig_id fixed_len is_misuse
Made-valid key (ipv4 ec addr) c m =
    plain_valid ec 0x10 4 (le_bytes 4 addr) c (length-le_bytes 4 addr) (omega arith) refl
Made-valid key (ipv6 ec addr) c m =
    plain_valid ec 0x11 16 (bytes_at 16 addr) c (length-bytes_at 16 addr) (omega arith) refl
Made-valid key (str ec et val) c m = str_valid key ec et val c (
    string_free (u8 et)
      (elim (Bool-cases (is_string (u8 et))) [ inl e ↦ e | inr e ↦ absurd (ground (arith, e, m)) ]))
Made-valid key (user ec val) c m = str_valid key ec 0x20 val c refl
Made-valid key (machine ec val) c m = str_valid key ec 0x21 val c refl
Made-valid key (email ec val) c m = str_valid key ec 0x22 val c refl
Made-valid key (domain ec val) c m = str_valid key ec 0x30 val c refl
Made-valid key (service ec val) c m = str_valid key ec 0x31 val c refl
Made-valid key (path ec val) c m = str_valid key ec 0x32 val c refl
Made-valid key (url ec val) c m = str_valid key ec 0x33 val c refl
Made-valid key (md5 hash) c m =
    plain_valid with 0x40 16 (bytes_at 16 hash) c (length-bytes_at 16 hash) (omega arith) refl
Made-valid key (sha1 hash) c m =
    plain_valid with 0x41 20 (bytes_at 20 hash) c (length-bytes_at 20 hash) (omega arith) refl
Made-valid key (sha256 hash) c m =
    plain_valid with 0x42 32 (bytes_at 32 hash) c (length-bytes_at 32 hash) (omega arith) refl
Made-valid key (port ec n) c m =
    plain_valid ec 0x50 2 (le_bytes 2 n) c (length-le_bytes 2 n) (omega arith) refl
Made-valid key (proto n) c m = plain_valid with 0x51 1 (n ∷ []) c refl (omega arith) refl
Made-valid key (size n) c m =
    plain_valid with 0x52 8 (le_bytes 8 n) c (length-le_bytes 8 n) (omega arith) refl
Made-valid key (sig_id n) c m =
    plain_valid with 0x53 4 (le_bytes 4 n) c (length-le_bytes 4 n) (omega arith) refl
