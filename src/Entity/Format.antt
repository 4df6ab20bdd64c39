-- ===== src/Entity/Format.antt =====
-- wake_entity_format and its helpers. A text is a list of bytes. A helper returns what the C function
-- returns and the bytes that stand in the buffer before the terminating NUL; a buffer of
-- no bytes is left alone.
use libwake.Common.{
  ℕ, zero, suc, ◌+◌, ◌-◌, ◌*◌, ◌/◌, ◌%◌, ◌&&◌, Option, none, some, List, [], ◌∷◌, ◌++◌, ◌==◌, ltb,
  leb, if◌then◌else◌, length, take, get_or, map,
}
use Prim.Native.Char.{code}
use Prim.Native.String.{String}
use text.Mathlib.TextBridge.{to_list}
use libwake.Entity.Types.{Entity}
use libwake.Entity.Siphash.{le_value}
use libwake.Entity.Ops.{is_hashed}
use libwake.Entity.Names.{eclass_name, etype_name}

abbrev pub Text : Type 0
Text = List ℕ

-- the bytes of a text of ASCII characters
abbrev pub ascii : String → Text
ascii s = map code (to_list s)

-- the table of hexadecimal digits
abbrev pub digits : Text
digits =
    b'0' ∷ b'1' ∷ b'2' ∷ b'3' ∷ b'4' ∷ b'5' ∷ b'6' ∷ b'7' ∷ b'8' ∷ b'9' ∷ b'a' ∷ b'b' ∷ b'c' ∷ b'd'
    ∷ b'e' ∷ b'f' ∷ []

abbrev pub digit : ℕ → ℕ
digit n = get_or digits n 0

-- `%u` and `%llu`: up to `fuel` digits
unfoldable pub decimal_loop : ℕ → ℕ → Text → Text
decimal_loop zero n text = text
decimal_loop (suc fuel) n text =
    let more = decimal_loop fuel (n / 10) (digit (n % 10) ∷ text) in
    if ltb n 10 then digit n ∷ text else more

-- a number of 64 bits has 20 digits at most
unfoldable pub decimal : ℕ → Text
unfolding decimal_loop
decimal n = decimal_loop 20 n []

-- snprintf: the length of the text, and what fits of it
abbrev pub print : Text → ℕ → ℕ × Text
print text bufsz = (length text, take (bufsz - 1) text)

unfoldable pub format_ipv4 : List ℕ → ℕ → ℕ × Text
unfolding decimal
format_ipv4 addr bufsz =
    print
      (decimal (get_or addr 0 0)
        ++ ascii "."
        ++ decimal (get_or addr 1 0)
        ++ ascii "."
        ++ decimal (get_or addr 2 0)
        ++ ascii "."
        ++ decimal (get_or addr 3 0))
      bufsz

-- `ntop` is what inet_ntop answers for an address of 16 bytes
unfoldable pub format_ipv6 : (List ℕ → Option Text) → List ℕ → ℕ → ℕ × Text
format_ipv6 ntop addr bufsz = elim (ntop (take 16 addr)) [
  | none ↦ print (ascii "<invalid-ipv6>") bufsz
  | some text ↦ print text bufsz
]

-- the loop, with `out` bytes written so far
unfoldable pub hex_loop : List ℕ → ℕ → ℕ → Text
hex_loop [] out bufsz = []
hex_loop (x ∷ xs) out bufsz =
    let rest = hex_loop xs (out + 2) bufsz in
    if ltb (out + 2) bufsz then digit (x / 16) ∷ digit (x % 16) ∷ rest else []

unfoldable pub format_hex : List ℕ → ℕ → ℕ × Text
unfolding hex_loop
format_hex bytes bufsz =
    if bufsz == 0
    then (length bytes * 2, [])
    else (let text = hex_loop bytes 0 bufsz in (length text, text))

unfoldable pub format_string : List ℕ → ℕ → ℕ × Text
format_string bytes bufsz =
    if bufsz == 0
    then (length bytes, [])
    else (let n = if ltb (length bytes) (bufsz - 1) then length bytes else bufsz - 1 in
        (n, take n bytes))

-- format_uint16, format_uint32 and format_uint64 read 2, 4 and 8 bytes
unfoldable pub format_uint : ℕ → List ℕ → ℕ → ℕ × Text
unfolding decimal le_value
format_uint width bytes bufsz = print (decimal (le_value (take width bytes))) bufsz

-- The value of an entity, after the class and the type. Its array holds 56 bytes; where `value_len` is
-- larger, as it may be in an entity that is not valid, the memory behind the array is read.
unfoldable pub format_value : (List ℕ → Option Text) → List ℕ → Entity → ℕ → ℕ × Text
unfolding format_ipv4 format_ipv6 format_hex format_string format_uint
format_value ntop behind e bufsz =
    let bytes = take e.value_len (e.value ++ behind) in
    let et = e.etype in
    if is_hashed e
    then (let mark = print (ascii "H:") bufsz in
        if ltb mark.0 bufsz
        then (let hex = format_hex bytes (bufsz - mark.0) in (mark.0 + hex.0, mark.1 ++ hex.1))
        else mark)
    else if et == 0x10
    then format_ipv4 e.value bufsz
    else if et == 0x11
    then format_ipv6 ntop e.value bufsz
    else if leb 0x20 et && leb et 0x22
    then format_string bytes bufsz
    else if leb 0x30 et && leb et 0x33
    then format_string bytes bufsz
    else if leb 0x40 et && leb et 0x42
    then format_hex bytes bufsz
    else if et == 0x50
    then format_uint 2 e.value bufsz
    else if et == 0x51
    then print (decimal (get_or e.value 0 0)) bufsz
    else if et == 0x52
    then format_uint 8 e.value bufsz
    else if et == 0x53
    then format_uint 4 e.value bufsz
    else format_hex bytes bufsz

-- What wake_entity_format returns, `none` for -1, and the text that it leaves before the terminating NUL;
-- a buffer of no bytes is left alone.
unfoldable pub entity_format : (List ℕ → Option Text) → List ℕ → Entity → ℕ → Option ℕ × Text
unfolding format_value
entity_format ntop behind e bufsz =
    if bufsz == 0
    then (none, [])
    else (let head =
          print
            (ascii (eclass_name e.eclass) ++ ascii ":" ++ ascii (etype_name e.etype) ++ ascii ":")
            bufsz in
        if leb bufsz head.0
        then (none, head.1)
        else (let value = format_value ntop behind e (bufsz - head.0) in
            (some (head.0 + value.0), head.1 ++ value.1)))
