-- ===== src/Entity/Init.antt =====
-- The functions that fill in an entity. Each clears the struct first; an integer is stored as on a
-- little-endian machine.
use libwake.Common.{
  ℕ, zero, suc, ◌-◌, ◌%◌, ◌/◌, List, [], ◌∷◌, ◌++◌, leb, if◌then◌else◌, length, replicate, u8,
}
use libwake.Entity.Types.{Entity, value_max, hashed_flag, with}
use libwake.Entity.Siphash.{siphash_2_4}

-- `n` bytes from an address
unfoldable pub bytes_at : ℕ → List ℕ → List ℕ
bytes_at zero mem = []
bytes_at (suc n) [] = 0 ∷ bytes_at n []
bytes_at (suc n) (x ∷ xs) = x ∷ bytes_at n xs

-- an integer in memory
unfoldable pub le_bytes : ℕ → ℕ → List ℕ
le_bytes zero v = []
le_bytes (suc n) v = v % 256 ∷ le_bytes n (v / 256)

-- the struct after `memset`, the assignments and `memcpy`
abbrev pub filled : ℕ → ℕ → ℕ → List ℕ → Entity
filled ec et flags bytes = record {
  eclass = u8 ec;
  etype = u8 et;
  value_len = u8 (length bytes);
  flags = flags;
  reserved = 0;
  value = bytes ++ replicate (value_max - length bytes) 0;
}

unfoldable pub init_ipv4 : ℕ → ℕ → Entity
unfolding le_bytes
init_ipv4 ec addr = filled ec 0x10 0 (le_bytes 4 addr)

unfoldable pub init_ipv6 : ℕ → List ℕ → Entity
unfolding bytes_at
init_ipv6 ec addr = filled ec 0x11 0 (bytes_at 16 addr)

-- `key` is siphash_key
unfoldable pub init_str : List ℕ → ℕ → ℕ → List ℕ → Entity
unfolding le_bytes
init_str key ec et val =
    if leb (length val) value_max
    then filled ec et 0 val
    else filled ec et hashed_flag (le_bytes 8 (siphash_2_4 val key))

abbrev pub init_user : List ℕ → ℕ → List ℕ → Entity
init_user key ec val = init_str key ec 0x20 val

abbrev pub init_machine : List ℕ → ℕ → List ℕ → Entity
init_machine key ec val = init_str key ec 0x21 val

abbrev pub init_email : List ℕ → ℕ → List ℕ → Entity
init_email key ec val = init_str key ec 0x22 val

abbrev pub init_domain : List ℕ → ℕ → List ℕ → Entity
init_domain key ec val = init_str key ec 0x30 val

abbrev pub init_service : List ℕ → ℕ → List ℕ → Entity
init_service key ec val = init_str key ec 0x31 val

abbrev pub init_path : List ℕ → ℕ → List ℕ → Entity
init_path key ec val = init_str key ec 0x32 val

abbrev pub init_url : List ℕ → ℕ → List ℕ → Entity
init_url key ec val = init_str key ec 0x33 val

unfoldable pub init_md5 : List ℕ → Entity
unfolding bytes_at
init_md5 hash = filled with 0x40 0 (bytes_at 16 hash)

unfoldable pub init_sha1 : List ℕ → Entity
unfolding bytes_at
init_sha1 hash = filled with 0x41 0 (bytes_at 20 hash)

unfoldable pub init_sha256 : List ℕ → Entity
unfolding bytes_at
init_sha256 hash = filled with 0x42 0 (bytes_at 32 hash)

unfoldable pub init_port : ℕ → ℕ → Entity
unfolding le_bytes
init_port ec port = filled ec 0x50 0 (le_bytes 2 port)

unfoldable pub init_proto : ℕ → Entity
init_proto iana_proto = filled with 0x51 0 (iana_proto ∷ [])

unfoldable pub init_size : ℕ → Entity
unfolding le_bytes
init_size bytes = filled with 0x52 0 (le_bytes 8 bytes)

unfoldable pub init_sig_id : ℕ → Entity
unfolding le_bytes
init_sig_id sig_id = filled with 0x53 0 (le_bytes 4 sig_id)
