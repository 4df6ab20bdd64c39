-- ===== src/Dgram/Entries.antt =====
-- One entry, and the list of entries.
use libwake.Common.{
  ℕ, ◌+◌, ◌*◌, ◌^◌, ◌≡◌, ◌≤◌, ◌<◌, refl, sym, ◌∙◌, ap, some, List, [], ◌∷◌, ◌++◌, length,
  length-append, get_or, leb, ltb, false, arith,
}
use mathlib.Core.List.{append_assoc, append-nil}
use libwake.Swim.Types.{Update}
use libwake.Dgram.{
  rd16, rd32, wr16, wr32, dec_update, enc_update, dec_loop, enc_loop, dec_updates, max_updates,
}
use libwake.Dgram.Buffer.{get_or-at, slice-behind, slice-front}
use libwake.Dgram.Words.{rd16-behind, rd32-behind}

-- An update within the widths of its fields.
pub record FitsUpdate (u : Update) : Type 0 where
  pub id : length u.node_id ≡ 32
  pub addr : u.addr < 2 ^ 32
  pub port : u.port < 2 ^ 16
  pub state : u.state < 2 ^ 8
  pub incarnation : u.incarnation < 2 ^ 32
  pub piggyback : u.piggyback_count < 2 ^ 16

-- The same for each of a list.
abbrev pub AllFit : List Update → Type 0
AllFit [] = Unit
AllFit (u ∷ us) = FitsUpdate u × AllFit us

pub length-enc_update : (u : Update) → length u.node_id ≡ 32 → length (enc_update u) ≡ 48
unfolding enc_update wr16 wr32
length-enc_update u h = length-append u.node_id _ ∙ omega (arith, h)

rd32-at : (xs ys : List ℕ) (n k i : ℕ) → length xs ≡ n → i ≡ n + k → rd32 (xs ++ ys) i ≡ rd32 ys k
rd32-at xs ys n k i h e = ap (λ (j : ℕ). rd32 (xs ++ ys) j) e ∙ rd32-behind xs ys n k h

rd16-at : (xs ys : List ℕ) (n k i : ℕ) → length xs ≡ n → i ≡ n + k → rd16 (xs ++ ys) i ≡ rd16 ys k
rd16-at xs ys n k i h e = ap (λ (j : ℕ). rd16 (xs ++ ys) j) e ∙ rd16-behind xs ys n k h

dec_update-behind :
    (xs ys : List ℕ) (n k : ℕ) → length xs ≡ n → dec_update (xs ++ ys) (n + k) ≡ dec_update ys k
unfolding dec_update
dec_update-behind xs ys n k h =
    rw
      (
        slice-behind xs ys n k 32 h,
        rd32-at xs ys n (k + 32) (n + k + 32) h (omega arith),
        rd16-at xs ys n (k + 36) (n + k + 36) h (omega arith),
        get_or-at xs ys n (k + 38) (n + k + 38) h (omega arith),
        rd32-at xs ys n (k + 40) (n + k + 40) h (omega arith),
        rd16-at xs ys n (k + 44) (n + k + 44) h (omega arith),
      )
      refl

-- The bytes of an entry behind its node identifier, and what follows.
fields : Update → List ℕ → List ℕ
unfolding wr16 wr32
fields u rest =
    wr32 u.addr
    ++ (wr16 u.port
        ++ (u.state ∷ 0 ∷ (wr32 u.incarnation ++ (wr16 u.piggyback_count ++ (wr16 0 ++ rest)))))

enc_update-split : (u : Update) (rest : List ℕ) → enc_update u ++ rest ≡ u.node_id ++ fields u rest
unfolding enc_update fields
enc_update-split u rest = append_assoc u.node_id _ rest

dec_update-enc_update :
    (u : Update) (rest : List ℕ) → FitsUpdate u → dec_update (enc_update u ++ rest) 0 ≡ u
unfolding dec_update fields rd16 rd32
dec_update-enc_update u rest f =
    let tail = fields u rest in
    let addr : rd32 (u.node_id ++ tail) 32 ≡ u.addr =
      rd32-at u.node_id tail 32 0 32 f.id refl ∙ omega (arith, f.addr) in
    let port : rd16 (u.node_id ++ tail) 36 ≡ u.port =
      rd16-at u.node_id tail 32 4 36 f.id refl ∙ omega (arith, f.port) in
    let state : get_or (u.node_id ++ tail) 38 0 ≡ u.state =
      get_or-at u.node_id tail 32 6 38 f.id refl in
    let incarnation : rd32 (u.node_id ++ tail) 40 ≡ u.incarnation =
      rd32-at u.node_id tail 32 8 40 f.id refl ∙ omega (arith, f.incarnation) in
    let piggyback : rd16 (u.node_id ++ tail) 44 ≡ u.piggyback_count =
      rd16-at u.node_id tail 32 12 44 f.id refl ∙ omega (arith, f.piggyback) in
    rw
      (
        enc_update-split u rest,
        slice-front u.node_id tail 32 f.id,
        addr,
        port,
        state,
        incarnation,
        piggyback,
      )
      refl

dec_loop-enc_loop :
    (before : List ℕ) (us : List Update) (rest : List ℕ) (n : ℕ)
    → length before ≡ n
    → AllFit us
    → dec_loop (length us) (before ++ (enc_loop us ++ rest)) n ≡ us
unfolding dec_loop enc_loop
dec_loop-enc_loop before [] rest n h fits = refl
dec_loop-enc_loop before (u ∷ us) rest n h (f, fits) =
    let more = enc_loop us ++ rest in
    let entry = enc_update u in
    let whole : before ++ (enc_loop (u ∷ us) ++ rest) ≡ (before ++ entry) ++ more =
      ap (λ (b : List ℕ). before ++ b) (append_assoc entry (enc_loop us) rest)
      ∙ sym (append_assoc before entry more) in
    let one : dec_update (before ++ (entry ++ more)) n ≡ u =
      ap (λ (i : ℕ). dec_update (before ++ (entry ++ more)) i) (omega arith)
      ∙ dec_update-behind before (entry ++ more) n 0 h
      ∙ dec_update-enc_update u more f in
    let size : length (before ++ entry) ≡ n + 48 =
      length-append before entry ∙ omega (arith, h, length-enc_update u f.id) in
    rw
      (
        whole,
        dec_loop-enc_loop (before ++ entry) us rest (n + 48) size fits,
        append_assoc before entry more,
        one,
      )
      refl

-- A list of at most eight entries, read back from behind `n` bytes.
pub dec_updates-enc_loop :
    (before : List ℕ) (us : List Update) (n : ℕ)
    → length before ≡ n
    → length us ≤ max_updates
    → AllFit us
    → dec_updates (before ++ length us ∷ enc_loop us) (n + 1 + length us * 48) n ≡ some us
unfolding dec_updates
dec_updates-enc_loop before us n h few fits =
    let count : get_or (before ++ length us ∷ enc_loop us) n 0 ≡ length us =
      get_or-at before (length us ∷ enc_loop us) n 0 n h (omega arith) in
    let whole : (before ++ length us ∷ []) ++ (enc_loop us ++ [])
        ≡ before ++ length us ∷ enc_loop us =
      append_assoc before (length us ∷ []) (enc_loop us ++ [])
      ∙ ap (λ (b : List ℕ). before ++ length us ∷ b) (append-nil (enc_loop us)) in
    let size : length (before ++ length us ∷ []) ≡ n + 1 =
      length-append before (length us ∷ []) ∙ omega (arith, h) in
    let read = dec_loop-enc_loop (before ++ length us ∷ []) us [] (n + 1) size fits in
    let present : leb (n + 1 + length us * 48) n ≡ false = ground arith in
    let allowed : ltb max_updates (length us) ≡ false = ground arith in
    let inside : ltb (n + 1 + length us * 48) (n + 1 + length us * 48) ≡ false = ground arith in
    rw (present, count, allowed, inside)
      (ap some (ap (λ (m : List ℕ). dec_loop (length us) m (n + 1)) (sym whole) ∙ read))

pub length-enc_loop : (us : List Update) → AllFit us → length (enc_loop us) ≡ length us * 48
unfolding enc_loop
length-enc_loop [] fits = refl
length-enc_loop (u ∷ us) (f, fits) =
    length-append (enc_update u) (enc_loop us)
    ∙ omega (arith, length-enc_update u f.id, length-enc_loop us fits)
