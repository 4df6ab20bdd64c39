-- ===== src/Dgram/Bounds.antt =====
-- The decoder and the memory that follows its buffer.
use libwake.Common.{
  ℕ, zero, suc, ◌+◌, ◌*◌, ◌≡◌, ◌≤◌, refl, List, ◌++◌, length, get_or, leb, ltb, arith, Bool-cases,
  inl, inr,
}
use libwake.Dgram.{rd16, blank, decode, dec_body, dec_update, dec_loop, dec_updates, dec_gossip}
use libwake.Dgram.Buffer.{get_or-inside, slice-inside}
use libwake.Dgram.Words.{rd16-inside, rd32-inside}

module _ (buf junk : List ℕ) where
  abbrev mem : List ℕ
  mem = buf ++ junk

  dec_update-inside : (off : ℕ) → off + 48 ≤ length buf → dec_update mem off ≡ dec_update buf off
  unfolding dec_update
  dec_update-inside off h =
      rw
        (
          slice-inside buf junk off 32 (omega arith),
          rd32-inside buf junk (off + 32) (omega arith),
          rd16-inside buf junk (off + 36) (omega arith),
          get_or-inside buf junk (off + 38) (omega arith),
          rd32-inside buf junk (off + 40) (omega arith),
          rd16-inside buf junk (off + 44) (omega arith),
        )
        refl

  dec_loop-inside :
      (n off : ℕ) → off + n * 48 ≤ length buf → dec_loop n mem off ≡ dec_loop n buf off
  unfolding dec_loop
  dec_loop-inside zero off h = refl
  dec_loop-inside (suc n) off h =
      rw (dec_update-inside off (omega (arith, h)), dec_loop-inside n (off + 48) (omega (arith, h)))
        refl

  dec_updates-inside :
      (off : ℕ) → dec_updates mem (length buf) off ≡ dec_updates buf (length buf) off
  unfolding dec_updates
  dec_updates-inside off = elim (Bool-cases (leb (length buf) off)) [
    | inl past ↦ rw past refl
    | inr before ↦
        let count = get_or buf off 0 in
        rw (before, get_or-inside buf junk off (ground (arith, before)))
          (elim (Bool-cases (ltb (length buf) (off + 1 + count * 48))) [
            | inl long ↦ rw long refl
            | inr fits ↦ rw (fits, dec_loop-inside count (off + 1) (ground (arith, fits))) refl
          ])
  ]

  module _ (room : 36 ≤ length buf) where
    blank-inside : blank mem ≡ blank buf
    unfolding blank
    blank-inside =
        rw
          (
            get_or-inside buf junk 3 (omega (arith, room)),
            slice-inside buf junk 4 32 (omega (arith, room)),
          )
          refl

    dec_gossip-inside : dec_gossip mem (length buf) ≡ dec_gossip buf (length buf)
    unfolding dec_gossip
    dec_gossip-inside = elim (Bool-cases (ltb (length buf) (36 + 16 + 2))) [
      | inl short ↦ rw short refl
      | inr long ↦
          let plen = rd16 buf 52 in
          rw
            (
              long,
              rd16-inside buf junk 52 (ground (arith, long)),
              blank-inside,
              slice-inside buf junk 36 16 (ground (arith, long)),
            )
            (elim (Bool-cases (ltb (length buf) (54 + plen))) [
              | inl over ↦ rw over refl
              | inr fits ↦ rw (fits, slice-inside buf junk 54 plen (ground (arith, fits))) refl
            ])
    ]

    dec_body-inside : dec_body mem (length buf) ≡ dec_body buf (length buf)
    unfolding dec_body
    dec_body-inside =
        rw
          (
            get_or-inside buf junk 3 (omega (arith, room)),
            blank-inside,
            dec_gossip-inside,
            dec_updates-inside 36,
            dec_updates-inside 68,
          )
          (elim (Bool-cases (ltb (length buf) (36 + 32))) [
            | inl short ↦ elim (Bool-cases (ltb (length buf) (36 + 16))) [
              | inl shorter ↦ rw (short, shorter) refl
              | inr enough ↦
                  rw (short, enough, slice-inside buf junk 36 16 (ground (arith, enough))) refl
            ]
            | inr long ↦
                let wide : 36 + 32 ≤ length buf = ground (arith, long) in
                rw
                  (
                    slice-inside buf junk 36 32 wide,
                    slice-inside buf junk 36 16 (omega (arith, wide)),
                  )
                  refl
          ])

-- The decoder answers the same whatever memory follows its buffer, for any input.
pub decode-bounded :
    (buf junk : List ℕ) → decode (buf ++ junk) (length buf) ≡ decode buf (length buf)
unfolding decode
decode-bounded buf junk = elim (Bool-cases (ltb (length buf) 36)) [
  | inl short ↦ rw short refl
  | inr long ↦
      let room : 36 ≤ length buf = ground (arith, long) in
      rw
        (
          long,
          get_or-inside buf junk 0 (omega (arith, room)),
          get_or-inside buf junk 1 (omega (arith, room)),
          get_or-inside buf junk 2 (omega (arith, room)),
          dec_body-inside buf junk room,
        )
        refl
]
