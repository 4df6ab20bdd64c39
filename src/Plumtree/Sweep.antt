-- ===== src/Plumtree/Sweep.antt =====
-- What a tick does, told with times that do not wrap.
use libwake.Common.{
  ℕ, ◌+◌, ◌^◌, ◌≡◌, ◌≤◌, ◌<◌, refl, ◌∙◌, ap, Bool, true, false, ◌&&◌, ◌||◌, Option, none, some,
  List, [], ◌∷◌, if◌then◌else◌, length, map, keep, arith, Bool-cases, inl, inr, ltb, leb, mem_eq,
  sub64,
}
use libwake.Swim.Types.{NodeId}
use libwake.Plumtree.Types.{Link, MsgType, Peer, Pending, CacheEntry, Plumtree}
use libwake.Plumtree.Peers.{set_link}
use libwake.Plumtree.Output.{Output, Hooks, when}
use libwake.Plumtree.Tick.{is_late, is_stale, tick}
use libwake.Plumtree.PeerLaws.{peer_of}
use libwake.Plumtree.TickLaws.{settle, graft_for, promoted, spoil}
use libwake.Plumtree.Relay.{heard_from, peer_of-heard}
use libwake.Plumtree.Repair.{fresh_only, tick-sweeps}

-- No slot was announced, and no message stored, later than now.
abbrev pub HeardBy : ℕ → List Pending → Type 0
HeardBy now [] = Unit
HeardBy now (p ∷ ps) = (p.received_ms ≤ now) × HeardBy now ps

abbrev pub StoredBy : ℕ → List CacheEntry → Type 0
StoredBy now [] = Unit
StoredBy now (e ∷ es) = (e.received_ms ≤ now) × StoredBy now es

-- A slot whose timeout has passed, and a message that has been in the cache for its lifetime; a
-- lifetime of 0 has no end.
abbrev pub is_due : ℕ → ℕ → Pending → Bool
is_due timeout now p = p.active && leb (p.received_ms + timeout) now

abbrev pub is_old : ℕ → ℕ → CacheEntry → Bool
is_old ttl now e = ltb 0 ttl && (e.occupied && leb (e.received_ms + ttl) now)

abbrev pub answered : ℕ → ℕ → Pending → Pending
answered timeout now p = if is_due timeout now p then record p { active = false } else p

abbrev pub aged : ℕ → ℕ → CacheEntry → CacheEntry
aged ttl now e = if is_old ttl now e then record e { occupied = false } else e

-- Has the node announced one of these?
abbrev pub has_announced : NodeId → List Pending → Bool
has_announced j [] = false
has_announced j (p ∷ ps) = mem_eq p.from_id j || has_announced j ps

since : (now t : ℕ) → t ≤ now → now < 2 ^ 64 → sub64 now t + t ≡ now
since now t h w = omega (arith, h, w)

is_late-due :
    (timeout now : ℕ) (p : Pending)
    → p.received_ms ≤ now
    → now < 2 ^ 64
    → is_late timeout now p ≡ is_due timeout now p
is_late-due timeout now p h w = let e = since now p.received_ms h w in ground (arith, e)

is_stale-old :
    (ttl now : ℕ) (e : CacheEntry)
    → ltb 0 ttl ≡ true
    → e.received_ms ≤ now
    → now < 2 ^ 64
    → is_stale ttl now e ≡ is_old ttl now e
is_stale-old ttl now e on h w = let s = since now e.received_ms h w in rw on (ground (arith, s))

due_slots :
    (timeout now : ℕ) (ps : List Pending)
    → HeardBy now ps
    → now < 2 ^ 64
    → (keep (is_late timeout now) ps ≡ keep (is_due timeout now) ps)
      × (map (settle timeout now) ps ≡ map (answered timeout now) ps)
due_slots timeout now [] h w = (refl, refl)
due_slots timeout now (p ∷ ps) (here, h) w =
    let ih = due_slots timeout now ps h w in
    rw (is_late-due timeout now p here w, ih.0, ih.1) (refl, refl)

old_messages :
    (ttl now : ℕ) (es : List CacheEntry)
    → ltb 0 ttl ≡ true
    → StoredBy now es
    → now < 2 ^ 64
    → map (spoil ttl now) es ≡ map (aged ttl now) es
old_messages ttl now [] on h w = refl
old_messages ttl now (e ∷ es) on (here, h) w =
    rw (is_stale-old ttl now e on here w, old_messages ttl now es on h w) refl

never_old : (ttl now : ℕ) (es : List CacheEntry) → ltb 0 ttl ≡ false → es ≡ map (aged ttl now) es
never_old ttl now [] off = refl
never_old ttl now (e ∷ es) off =
    rw off (ap (λ (r : List CacheEntry). e ∷ r) (never_old ttl now es off))

cache_after :
    (pt : Plumtree) (now : ℕ)
    → StoredBy now pt.cache
    → now < 2 ^ 64
    → fresh_only pt now ≡ map (aged pt.config.cache_ttl_ms now) pt.cache
cache_after pt now h w =
    let ttl = pt.config.cache_ttl_ms in
    elim (Bool-cases (ltb 0 ttl)) [
      | inl on ↦ rw on (old_messages ttl now pt.cache on h w)
      | inr off ↦ rw off (never_old ttl now pt.cache off)
    ]

-- The peers after the first loop, node by node.
heard_twice :
    (now : ℕ) (o : Option Peer)
    → heard_from Link.eager now (heard_from Link.eager now o) ≡ heard_from Link.eager now o
heard_twice now none = refl
heard_twice now (some p) = refl

peer_of-promoted :
    (timeout now : ℕ) (ps : List Pending) (peers : List Peer) (j : NodeId)
    → peer_of (promoted timeout now ps peers) j ≡ (
        if has_announced j (keep (is_late timeout now) ps)
        then heard_from Link.eager now (peer_of peers j)
        else peer_of peers j)
unfolding promoted
peer_of-promoted timeout now [] peers j = refl
peer_of-promoted timeout now (p ∷ ps) peers j = elim (Bool-cases (is_late timeout now p)) [
  | inr early ↦ rw early (peer_of-promoted timeout now ps peers j)
  | inl late ↦
      let moved = set_link Link.eager p.from_id now peers in
      let ih = peer_of-promoted timeout now ps moved j in
      let at = peer_of-heard Link.eager p.from_id now peers j in
      let others = has_announced j (keep (is_late timeout now) ps) in
      elim (Bool-cases (mem_eq p.from_id j)) [
        | inr other ↦
            let same : peer_of moved j ≡ peer_of peers j = at ∙ rw other refl in
            rw (late, other) (rw same at ih)
        | inl here ↦
            let eager : peer_of moved j ≡ heard_from Link.eager now (peer_of peers j) =
              at ∙ rw here refl in
            rw (late, here)
              (rw eager at ih ∙ elim (Bool-cases others) [
                | inl again ↦ rw again (heard_twice now (peer_of peers j))
                | inr once ↦ rw once refl
              ])
      ]
]

-- A tick at a time of 64 bits, not before any time in the tables. It counts the slots whose timeout has
-- passed and, with a send callback, sends for each of them, in order, a GRAFT to the node that announced
-- the message. Just these slots are idle afterwards. The announcing nodes that are peers become eager,
-- as of now, and every other peer stays as it was. From the cache go just the messages that have been
-- there for the lifetime, and none if the lifetime is 0.
pub tick-grafts :
    (pt : Plumtree) (hooks : Hooks) (now : ℕ) (j : NodeId)
    → HeardBy now pt.pending
    → StoredBy now pt.cache
    → now < 2 ^ 64
    → let timeout = pt.config.lazy_timeout_ms in
      let due = keep (is_due timeout now) pt.pending in
      let r = tick pt hooks now in
      (r.0 ≡ length due)
      × (r.2
          ≡ when hooks.can_send
              (map (λ (p : Pending). Output.send MsgType.graft p.from_id p.msg_id []) due))
      × (r.1.pending ≡ map (answered timeout now) pt.pending)
      × (peer_of r.1.peers j ≡ (
          if has_announced j due
          then heard_from Link.eager now (peer_of pt.peers j)
          else peer_of pt.peers j))
      × (r.1.cache ≡ map (aged pt.config.cache_ttl_ms now) pt.cache)
tick-grafts pt hooks now j heard stored w =
    let timeout = pt.config.lazy_timeout_ms in
    let (number, out, slots, peers, cache) = tick-sweeps pt hooks now in
    let (due, settled) = due_slots timeout now pt.pending heard w in
    (
      number ∙ ap (λ (ps : List Pending). length ps) due,
      out ∙ ap (λ (ps : List Pending). when hooks.can_send (map graft_for ps)) due,
      slots ∙ settled,
      ap (λ (ps : List Peer). peer_of ps j) peers
          ∙ peer_of-promoted timeout now pt.pending pt.peers j
          ∙ ap
              (λ (ps : List Pending).
                if has_announced j ps
                then heard_from Link.eager now (peer_of pt.peers j)
                else peer_of pt.peers j)
              due,
      cache ∙ cache_after pt now stored w,
    )
