-- ===== src/Plumtree/TickLaws.antt =====
-- What wake_plumtree_tick does, described without its loops.
use libwake.Common.{
  ℕ, suc, ◌+◌, ◌-◌, ◌≡◌, refl, ◌∙◌, ap, Bool, true, false, none, List, [], ◌∷◌, if◌then◌else◌,
  length, map, keep, count_if, arith, Bool-cases, inl, inr, inc64,
}
use libwake.Plumtree.Types.{Link, MsgType, Pending, CacheEntry, Peer, Plumtree}
use libwake.Plumtree.Peers.{set_link, promote_eager, peer_id}
use libwake.Plumtree.Pending.{dec, is_active}
use libwake.Plumtree.Cache.{is_occupied}
use libwake.Plumtree.Output.{Output, Hooks, when}
use libwake.Common.Keyed.{Distinct}
use libwake.Common.Slots.{find_first}
use libwake.Swim.Types.{NodeId}
use libwake.Plumtree.Types.{MsgId}
use libwake.Plumtree.Pending.{awaits}
use libwake.Plumtree.Peers.{find_peer}
use libwake.Plumtree.Invariant.{OneEach}
use libwake.Plumtree.PeerLaws.{length-set_link, find_peer-set_link, Distinct-set_link}
use libwake.Plumtree.Tick.{is_late, graft_one, graft_loop, is_stale, evict_loop}

-- The slot after the sweep, and the message that it leads to.
abbrev pub settle : ℕ → ℕ → Pending → Pending
settle timeout now p = if is_late timeout now p then record p { active = false } else p

abbrev pub graft_for : Pending → Output
graft_for p = Output.send MsgType.graft p.from_id p.msg_id []

-- The peers after the sweep: every node whose IHAVE is late is promoted, if it is a peer.
unfoldable pub promoted : ℕ → ℕ → List Pending → List Peer → List Peer
promoted timeout now [] peers = peers
promoted timeout now (p ∷ ps) peers =
    promoted timeout now ps
      (if is_late timeout now p then set_link Link.eager p.from_id now peers else peers)

-- What is sent for a slot.
abbrev grafts_of : ℕ → ℕ → Pending → List Output
grafts_of timeout now p = if is_late timeout now p then graft_for p ∷ [] else []

module _ (timeout now : ℕ) (hooks : Hooks) where
  abbrev late : Pending → Bool
  late = is_late timeout now

  slot-graft_one :
      (p : Pending) (pt : Plumtree) → (graft_one timeout now hooks p pt).0 ≡ settle timeout now p
  unfolding graft_one
  slot-graft_one p pt = elim (Bool-cases (late p)) [ inl e ↦ rw e refl | inr e ↦ rw e refl ]

  sent-graft_one :
      (p : Pending) (pt : Plumtree)
      → (graft_one timeout now hooks p pt).2 ≡ when hooks.can_send (grafts_of timeout now p)
  unfolding graft_one
  sent-graft_one p pt = elim (Bool-cases (late p)) [
    | inl e ↦ rw e refl
    | inr e ↦ rw e (elim (Bool-cases (hooks.can_send)) [ inl c ↦ rw c refl | inr c ↦ rw c refl ])
  ]

  -- One round changes the peers and two counters.
  state-graft_one :
      (p : Pending) (pt : Plumtree)
      → (graft_one timeout now hooks p pt).1 ≡ record pt {
        peers = if late p then set_link Link.eager p.from_id now pt.peers else pt.peers;
        grafts_sent = (graft_one timeout now hooks p pt).1.grafts_sent;
        pending_count = pt.pending_count - (if late p then 1 else 0);
      }
  unfolding graft_one promote_eager
  state-graft_one p pt = elim (Bool-cases (late p)) [
    | inl e ↦ rw e refl
    | inr e ↦
        let none_less : pt.pending_count - 0 ≡ pt.pending_count = omega arith in
        rw (e, none_less) refl
  ]

  pub slots-graft_loop :
      (ps : List Pending) (pt : Plumtree)
      → (graft_loop timeout now hooks ps pt).0 ≡ map (settle timeout now) ps
  unfolding graft_loop
  slots-graft_loop [] pt = refl
  slots-graft_loop (p ∷ ps) pt =
      let one = graft_one timeout now hooks p pt in
      rw (slot-graft_one p pt)
        (ap (λ (r : List Pending). settle timeout now p ∷ r) (slots-graft_loop ps one.1))

  pub number-graft_loop :
      (ps : List Pending) (pt : Plumtree)
      → (graft_loop timeout now hooks ps pt).3 ≡ count_if late ps
  unfolding graft_loop
  number-graft_loop [] pt = refl
  number-graft_loop (p ∷ ps) pt =
      let ih = number-graft_loop ps (graft_one timeout now hooks p pt).1 in rw ih (ground arith)

  pub sent-graft_loop :
      (ps : List Pending) (pt : Plumtree)
      → (graft_loop timeout now hooks ps pt).2 ≡ when hooks.can_send (map graft_for (keep late ps))
  unfolding graft_loop
  sent-graft_loop [] pt = elim (Bool-cases (hooks.can_send)) [
    | inl e ↦ rw e refl
    | inr e ↦ rw e refl
  ]
  sent-graft_loop (p ∷ ps) pt =
      let ih = sent-graft_loop ps (graft_one timeout now hooks p pt).1 in
      rw (sent-graft_one p pt, ih)
        (elim (Bool-cases (hooks.can_send)) [
          | inl c ↦ rw c (elim (Bool-cases (late p)) [ inl e ↦ rw e refl | inr e ↦ rw e refl ])
          | inr c ↦ rw c refl
        ])

  pub state-graft_loop :
      (ps : List Pending) (pt : Plumtree)
      → (graft_loop timeout now hooks ps pt).1 ≡ record pt {
        peers = promoted timeout now ps pt.peers;
        grafts_sent = (graft_loop timeout now hooks ps pt).1.grafts_sent;
        pending_count = pt.pending_count - count_if late ps;
      }
  unfolding graft_loop promoted
  state-graft_loop [] pt = ap (λ (n : ℕ). record pt { pending_count = n }) (omega arith)
  state-graft_loop (p ∷ ps) pt =
      let one = graft_one timeout now hooks p pt in
      let ih = state-graft_loop ps one.1 in
      let step = state-graft_one p pt in
      let sum : pt.pending_count - (if late p then 1 else 0) - count_if late ps
          ≡ pt.pending_count - count_if late (p ∷ ps) =
        ground arith in
      let g = (graft_loop timeout now hooks ps one.1).1.grafts_sent in
      let peers' = if late p then set_link Link.eager p.from_id now pt.peers else pt.peers in
      ih
      ∙ ap
          (λ (q : Plumtree). record q {
            peers = promoted timeout now ps q.peers;
            grafts_sent = g;
            pending_count = q.pending_count - count_if late ps;
          })
          step
      ∙ ap
          (λ (n : ℕ). record pt {
            peers = promoted timeout now ps peers';
            grafts_sent = g;
            pending_count = n;
          })
          sum

-- The slots that the second loop leaves.
abbrev pub spoil : ℕ → ℕ → CacheEntry → CacheEntry
spoil ttl now e = if is_stale ttl now e then record e { occupied = false } else e

module _ (ttl now : ℕ) where
  pub slots-evict_loop :
      (es : List CacheEntry) (n v : ℕ) → (evict_loop ttl now es n v).0 ≡ map (spoil ttl now) es
  unfolding evict_loop
  slots-evict_loop [] n v = refl
  slots-evict_loop (e ∷ es) n v =
      ap (λ (r : List CacheEntry). spoil ttl now e ∷ r) (slots-evict_loop es _ _)

  pub count-evict_loop :
      (es : List CacheEntry) (n v : ℕ)
      → (evict_loop ttl now es n v).1 ≡ n - count_if (is_stale ttl now) es
  unfolding evict_loop
  count-evict_loop [] n v = omega arith
  count-evict_loop (e ∷ es) n v = elim (Bool-cases (is_stale ttl now e)) [
    | inl stale ↦ rw stale (omega (arith, count-evict_loop es (dec n) (inc64 v)))
    | inr fresh ↦ rw fresh (count-evict_loop es n v)
  ]

  pub occupied-spoil :
      (es : List CacheEntry)
      → count_if is_occupied (map (spoil ttl now) es) + count_if (is_stale ttl now) es
        ≡ count_if is_occupied es
  occupied-spoil [] = refl
  occupied-spoil (e ∷ es) = ground (arith, occupied-spoil es)

pub active-settle :
    (timeout now : ℕ) (ps : List Pending)
    → count_if is_active (map (settle timeout now) ps) + count_if (is_late timeout now) ps
      ≡ count_if is_active ps
active-settle timeout now [] = refl
active-settle timeout now (p ∷ ps) = ground (arith, active-settle timeout now ps)

pub length-map {ℓ κ} :
    {A : Type ℓ} {B : Type κ} (f : A → B) (xs : List A) → length (map f xs) ≡ length xs
length-map f [] = refl
length-map f (x ∷ xs) = ap suc (length-map f xs)

-- The peers after the sweep: as many, the same nodes, without repetition.
module _ (timeout now : ℕ) where
  pub length-promoted :
      (ps : List Pending) (peers : List Peer)
      → length (promoted timeout now ps peers) ≡ length peers
  unfolding promoted
  length-promoted [] peers = refl
  length-promoted (p ∷ ps) peers = elim (Bool-cases (is_late timeout now p)) [
    | inl e ↦ rw e (length-promoted ps _ ∙ length-set_link Link.eager p.from_id now peers)
    | inr e ↦ rw e (length-promoted ps peers)
  ]

  pub find_peer-promoted :
      (ps : List Pending) (peers : List Peer) (j : NodeId)
      → find_peer (promoted timeout now ps peers) j ≡ find_peer peers j
  unfolding promoted
  find_peer-promoted [] peers j = refl
  find_peer-promoted (p ∷ ps) peers j = elim (Bool-cases (is_late timeout now p)) [
    | inl e ↦ rw e (find_peer-promoted ps _ j ∙ find_peer-set_link Link.eager p.from_id now peers j)
    | inr e ↦ rw e (find_peer-promoted ps peers j)
  ]

  pub Distinct-promoted :
      (ps : List Pending) (peers : List Peer)
      → Distinct peer_id peers
      → Distinct peer_id (promoted timeout now ps peers)
  unfolding promoted
  Distinct-promoted [] peers d = d
  Distinct-promoted (p ∷ ps) peers d = elim (Bool-cases (is_late timeout now p)) [
    | inl e ↦ rw e (Distinct-promoted ps _ (Distinct-set_link Link.eager p.from_id now peers d))
    | inr e ↦ rw e (Distinct-promoted ps peers d)
  ]

  pub settled-miss :
      (ps : List Pending) (id : MsgId)
      → find_first (awaits id) ps ≡ none
      → find_first (awaits id) (map (settle timeout now) ps) ≡ none
  settled-miss [] id h = refl
  settled-miss (p ∷ ps) id h = ground (arith, settled-miss ps id)

  settled_head :
      (p : Pending) (ps : List Pending)
      → (p.active ≡ true → find_first (awaits p.msg_id) ps ≡ none)
      → (settle timeout now p).active ≡ true
      → find_first (awaits (settle timeout now p).msg_id) (map (settle timeout now) ps) ≡ none
  settled_head p ps n a = elim (Bool-cases (is_late timeout now p)) [
    | inl e ↦ absurd (ground (arith, e, a))
    | inr e ↦ rw e (settled-miss ps p.msg_id (n (ground (arith, e, a))))
  ]

  pub OneEach-settle : (ps : List Pending) → OneEach ps → OneEach (map (settle timeout now) ps)
  OneEach-settle [] o = tt
  OneEach-settle (p ∷ ps) (n, o) = (settled_head p ps n, OneEach-settle ps o)
