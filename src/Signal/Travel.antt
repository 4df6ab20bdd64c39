-- ===== src/Signal/Travel.antt =====
-- Signals that are made, forwarded and verified.
use libwake.Common.{
  ℕ, suc, ◌+◌, ◌-◌, ◌^◌, ◌≡◌, ◌≤◌, ◌<◌, refl, ◌∙◌, ap, Bool, true, false, ◌&&◌, not, List, ◌==◌,
  leb, u8, arith, Bool-cases, inl, inr,
}
use libwake.Entity.Types.{Entity}
use libwake.Entity.Ops.{valid}
use libwake.Crypto
use libwake.Crypto.{Cipher, NodeKey, IsCorrect, keygen_from_seed, sign, sign-verify}
use libwake.Signal.{
  Meta, Signal, Content, magic_number, version_number, type_count, scope_count, signed_bytes,
  resigned, init, verify, forward,
}

-- The metadata after a hop.
abbrev passed_on : Meta → NodeKey → Meta
passed_on t key = record t {
  ttl = t.ttl - 1;
  hop_count = u8 (t.hop_count + 1);
  node_id = key.public_key;
}

-- The checks of a signal that do not look at its signature.
abbrev pub is_framed : Entity → Meta → Bool
is_framed e t =
    t.magic == magic_number
    && (t.version == version_number
        && (not (leb type_count t.signal_type) && (not (leb scope_count t.scope) && valid e)))

module _ (m : Cipher) (c : IsCorrect m) where
  -- A signal that has just been signed with the key of its node verifies where it is framed.
  resigned_verifies :
      (e : Entity) (t : Meta) (seed : List ℕ)
      → t.node_id ≡ (keygen_from_seed m seed).public_key
      → verify m (resigned m e t (keygen_from_seed m seed)) ≡ is_framed e t
  unfolding verify
  resigned_verifies e t seed node =
      let key = keygen_from_seed m seed in
      let bytes = signed_bytes e t in
      let signed : Crypto.verify m (sign m bytes key) bytes t.node_id ≡ true =
        ap (λ (n : List ℕ). Crypto.verify m (sign m bytes key) bytes n) node
        ∙ sign-verify m seed bytes c in
      rw signed (ground arith)

  -- A signal with a valid entity and a known type and scope, made with a generated key, verifies, with a
  -- correct cipher.
  pub init-verify :
      (x : Content) (seconds : ℕ) (seed : List ℕ)
      → x.signal_type < 4
      → x.scope < 2
      → valid x.entity ≡ true
      → verify m (init m x seconds (keygen_from_seed m seed)) ≡ true
  unfolding init
  init-verify x seconds seed ty sc va =
      let first = init m x seconds (keygen_from_seed m seed) in
      resigned_verifies x.entity first.meta seed refl ∙ ground (arith, ty, sc, va)

  -- Forwarding signs anew: a signal that may still travel verifies afterwards exactly where everything
  -- but its signature was in order before, whatever that signature was.
  pub forward-verify :
      (s : Signal) (seed : List ℕ)
      → 0 < s.meta.ttl
      → verify m (forward m s (keygen_from_seed m seed)).1 ≡ is_framed s.entity s.meta
  unfolding forward
  forward-verify s seed h =
      let live : (s.meta.ttl == 0) ≡ false = ground (arith, h) in
      let key = keygen_from_seed m seed in
      rw live (resigned_verifies s.entity (passed_on s.meta key) seed refl)

-- The ways of a signal: how often it has been forwarded, each time by a node with a key of its own, and
-- what it is then.
pub data Travels (m : Cipher) (start : Signal) : ℕ → Signal → Type 0 where
  here : Travels m start 0 start
  hop :
      {n : ℕ} {s : Signal}
      → Travels m start n s
      → (seed : List ℕ) → (forward m s (keygen_from_seed m seed)).0 ≡ true
      → Travels m start (suc n) (forward m s (keygen_from_seed m seed)).1

-- What is left of a signal on its way.
pub record OnTheWay (m : Cipher) (start : Signal) (n : ℕ) (s : Signal) : Type 0 where
  pub verifies : verify m s ≡ true
  pub same_entity : s.entity ≡ start.entity
  pub hops : s.meta.hop_count ≡ start.meta.hop_count + n
  pub left : s.meta.ttl + n ≡ start.meta.ttl

framed_of : (m : Cipher) (s : Signal) → verify m s ≡ true → is_framed s.entity s.meta ≡ true
unfolding verify
framed_of m s h = ground (arith, h)

-- A step of a way.
forwarded :
    (m : Cipher) (start : Signal) (n : ℕ) (s : Signal) (seed : List ℕ)
    → IsCorrect m
    → start.meta.hop_count + start.meta.ttl < 2 ^ 8
    → OnTheWay m start n s
    → (forward m s (keygen_from_seed m seed)).0 ≡ true
    → OnTheWay m start (suc n) (forward m s (keygen_from_seed m seed)).1
unfolding forward
forwarded m start n s seed c small w h = elim (Bool-cases (s.meta.ttl == 0)) [
  | inl spent ↦ absurd (ground (arith, h, spent))
  | inr live ↦
      let some_left : 0 < s.meta.ttl = ground (arith, live) in
      let again = forward-verify m c s seed some_left ∙ framed_of m s w.verifies in
      let key = keygen_from_seed m seed in
      let moved : (forward m s key).1 ≡ resigned m s.entity (passed_on s.meta key) key =
        rw live refl in
      let hop_count = ap (λ (q : Signal). q.meta.hop_count) moved in
      let ttl = ap (λ (q : Signal). q.meta.ttl) moved in
      record {
        verifies = again;
        same_entity = ap (λ (q : Signal). q.entity) moved ∙ w.same_entity;
        hops = omega (arith, hop_count, w.hops, w.left, small, some_left);
        left = omega (arith, ttl, w.left, some_left);
      }
]

ways :
    {m : Cipher} {start : Signal} {n : ℕ} {s : Signal}
    → IsCorrect m
    → start.meta.hop_count + start.meta.ttl < 2 ^ 8
    → verify m start ≡ true
    → Travels m start n s
    → OnTheWay m start n s
ways c small v here = record {
  verifies = v;
  same_entity = refl;
  hops = omega arith;
  left = omega arith;
}
ways {m} {start} c small v (hop {n} {s} way seed h) =
    forwarded m start n s seed c small (ways c small v way) h

-- With a correct cipher, a signal that verifies and whose counters fit in a byte is forwarded at most as often as its ttl says, by
-- whatever nodes; after each hop it verifies, speaks of the same entity, has counted its hops exactly,
-- and has that many fewer left.
pub Travels-OnTheWay :
    (m : Cipher) (start : Signal) {n : ℕ} {s : Signal}
    → IsCorrect m
    → verify m start ≡ true
    → start.meta.hop_count + start.meta.ttl < 2 ^ 8
    → Travels m start n s
    → OnTheWay m start n s × (n ≤ start.meta.ttl)
Travels-OnTheWay m start c v small way = let w = ways c small v way in (w, omega (arith, w.left))
