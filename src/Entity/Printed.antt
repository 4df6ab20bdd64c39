-- ===== src/Entity/Printed.antt =====
-- The text of a formatted entity and its buffer.
use libwake.Common.{
  ℕ, ◌+◌, ◌-◌, ◌≡◌, ◌<◌, Bool, true, false, ◌&&◌, Option, List, [], ◌∷◌, ◌++◌, ◌==◌, ltb, leb,
  if◌then◌else◌, length, length-append, length-take, take, get_or, arith, Bool-cases, Option-cases,
  inl, inr,
}
use libwake.Entity.Types.{Entity}
use libwake.Entity.Ops.{is_hashed}
use libwake.Entity.Format.{
  Text, ascii, print, decimal, format_ipv4, format_ipv6, hex_loop, format_hex, format_string,
  format_uint, format_value, entity_format,
}
use libwake.Entity.Names.{eclass_name, etype_name}

-- A text that leaves room for its NUL.
record Fits (bufsz : ℕ) (r : ℕ × Text) : Type 0 where
  room : length r.1 < bufsz

if-Fits :
    {bufsz : ℕ} (test : Bool) {x y : ℕ × Text}
    → Fits bufsz x
    → Fits bufsz y
    → Fits bufsz (if test then x else y)
if-Fits true fx fy = fx
if-Fits false fx fy = fy

print-Fits : (text : Text) (bufsz : ℕ) → 0 < bufsz → Fits bufsz (print text bufsz)
print-Fits text bufsz h = record { room = omega (arith, length-take (bufsz - 1) text) }

hex_loop-room :
    (bytes : List ℕ) (out bufsz : ℕ) → out < bufsz → out + length (hex_loop bytes out bufsz) < bufsz
unfolding hex_loop
hex_loop-room [] out bufsz h = omega arith
hex_loop-room (x ∷ xs) out bufsz h = elim (Bool-cases (ltb (out + 2) bufsz)) [
  | inl room ↦
      let next : out + 2 < bufsz = ground (arith, room) in
      rw room (omega (arith, hex_loop-room xs (out + 2) bufsz next))
  | inr full ↦ rw full (omega (arith, h))
]

module _ (bufsz : ℕ) (h : 0 < bufsz) where
  open_buffer : (bufsz == 0) ≡ false
  open_buffer = ground (arith, h)

  format_hex-Fits : (bytes : List ℕ) → Fits bufsz (format_hex bytes bufsz)
  unfolding format_hex
  format_hex-Fits bytes =
      rw open_buffer (record { room = omega (arith, hex_loop-room bytes 0 bufsz h) })

  format_string-Fits : (bytes : List ℕ) → Fits bufsz (format_string bytes bufsz)
  unfolding format_string
  format_string-Fits bytes = rw open_buffer (elim (Bool-cases (ltb (length bytes) (bufsz - 1))) [
    | inl short ↦
        let less : length bytes < bufsz - 1 = ground (arith, short) in
        rw short (record { room = omega (arith, length-take (length bytes) bytes, less) })
    | inr long ↦ rw long (record { room = omega (arith, length-take (bufsz - 1) bytes) })
  ])

  format_uint-Fits : (width : ℕ) (bytes : List ℕ) → Fits bufsz (format_uint width bytes bufsz)
  unfolding format_uint
  format_uint-Fits width bytes = print-Fits _ bufsz h

  format_ipv4-Fits : (addr : List ℕ) → Fits bufsz (format_ipv4 addr bufsz)
  unfolding format_ipv4
  format_ipv4-Fits addr = print-Fits _ bufsz h

  format_ipv6-Fits :
      (ntop : List ℕ → Option Text) (addr : List ℕ) → Fits bufsz (format_ipv6 ntop addr bufsz)
  unfolding format_ipv6
  format_ipv6-Fits ntop addr = elim (Option-cases (ntop (take 16 addr))) [
    | inl bad ↦ rw (bad, format_ipv6) (print-Fits _ bufsz h)
    | inr (text, good) ↦ rw (good, format_ipv6) (print-Fits text bufsz h)
  ]

-- A value flagged as hashed: the mark, and the bytes behind it where there is room.
marked-Fits :
    (bytes : List ℕ) (bufsz : ℕ)
    → 0 < bufsz
    → let mark = print (ascii "H:") bufsz in
      Fits bufsz (
        if ltb mark.0 bufsz
        then (let hex = format_hex bytes (bufsz - mark.0) in (mark.0 + hex.0, mark.1 ++ hex.1))
        else mark)
marked-Fits bytes bufsz h =
    let mark = print (ascii "H:") bufsz in
    elim (Bool-cases (ltb mark.0 bufsz)) [
      | inl room ↦
          let less : mark.0 < bufsz = ground (arith, room) in
          let hex = format_hex bytes (bufsz - mark.0) in
          let fits = format_hex-Fits (bufsz - mark.0) (omega (arith, less)) bytes in
          rw room (record {
            room = omega (
              arith,
              length-append mark.1 hex.1,
              length-take (bufsz - 1) (ascii "H:"),
              less,
              fits.room,
            );
          })
      | inr full ↦ rw full (print-Fits (ascii "H:") bufsz h)
    ]

format_value-Fits :
    (ntop : List ℕ → Option Text) (behind : List ℕ) (e : Entity) (bufsz : ℕ)
    → 0 < bufsz
    → Fits bufsz (format_value ntop behind e bufsz)
unfolding format_value
format_value-Fits ntop behind e bufsz h =
    let bytes = take e.value_len (e.value ++ behind) in
    let hex = format_hex-Fits bufsz h bytes in
    let text = format_string-Fits bufsz h bytes in
    let more = λ (width : ℕ). format_uint-Fits bufsz h width e.value in
    let octet = print-Fits (decimal (get_or e.value 0 0)) bufsz h in
    let et = e.etype in
    if-Fits (is_hashed e) (marked-Fits bytes bufsz h) (
      if-Fits (et == 0x10) (format_ipv4-Fits bufsz h e.value) (
        if-Fits (et == 0x11) (format_ipv6-Fits bufsz h ntop e.value) (
          if-Fits (leb 0x20 et && leb et 0x22) text (
            if-Fits (leb 0x30 et && leb et 0x33) text (
              if-Fits (leb 0x40 et && leb et 0x42) hex (
                if-Fits (et == 0x50) (more 2) (
                  if-Fits (et == 0x51) octet
                    (if-Fits (et == 0x52) (more 8) (if-Fits (et == 0x53) (more 4) hex)))))))))

-- In a buffer of any size but 0 the text that is left, on success and on failure, is shorter than the
-- buffer, so that its NUL fits, for any entity, whatever inet_ntop answers and whatever
-- memory follows the value.
pub entity_format_bounded :
    (ntop : List ℕ → Option Text) (behind : List ℕ) (e : Entity) (bufsz : ℕ)
    → 0 < bufsz
    → length (entity_format ntop behind e bufsz).1 < bufsz
unfolding entity_format
entity_format_bounded ntop behind e bufsz h =
    let text =
      ascii (eclass_name e.eclass) ++ ascii ":" ++ ascii (etype_name e.etype) ++ ascii ":" in
    let head = print text bufsz in
    rw (open_buffer bufsz h) (elim (Bool-cases (leb bufsz head.0)) [
      | inl full ↦ rw full (print-Fits text bufsz h).room
      | inr room ↦
          let less : head.0 < bufsz = ground (arith, room) in
          let value = format_value ntop behind e (bufsz - head.0) in
          rw room (
            omega (
              arith,
              length-append head.1 value.1,
              length-take (bufsz - 1) text,
              less,
              (format_value-Fits ntop behind e (bufsz - head.0) (omega (arith, less))).room,
            ))
    ])
