-- ===== src/Plumtree/PeerLaws.antt =====
-- The peer table as a map from nodes to peers.
use libwake.Common.{
  ℕ, zero, suc, ◌+◌, ◌-◌, ◌≡◌, ◌<◌, refl, sym, ◌∙◌, ap, false, Option, none, some, List, [], ◌∷◌,
  ◌++◌, ◌==◌, if◌then◌else◌, length, get_or, take, mem_eq, mem_eq→eq, mem_eq_comm, arith,
  Bool-cases, Option-cases, inl, inr, length-set, length-take,
}
use libwake.Common.Keyed.{
  lookup, Distinct, lookup-find_index, lookup-set, find_index-set, Distinct-set, lookup-append,
  lookup-eq-none, find_index_of_lookup, get_or-ne,
}
use libwake.Swim.Types.{NodeId}
use libwake.Plumtree.Types.{Link, Peer}
use libwake.Plumtree.Peers.{peer_id, zero_peer, find_peer, set_link, remove_at}

-- What the table says of a node.
abbrev pub peer_of : List Peer → NodeId → Option Peer
peer_of peers id = lookup peer_id peers id

same :
    (peers : List Peer) (id : NodeId) (i : ℕ)
    → find_peer peers id ≡ some i
    → find_peer peers (get_or peers i zero_peer).node_id ≡ some i
same peers id i h =
    ap (λ (k : NodeId). find_peer peers k) (lookup-find_index peer_id peers id i zero_peer h).1 ∙ h

module _ (link : Link) (id : NodeId) (now : ℕ) (peers : List Peer) where
  pub length-set_link : length (set_link link id now peers) ≡ length peers
  unfolding set_link
  length-set_link = elim (Option-cases (find_peer peers id)) [
    | inl lost ↦ rw (lost, set_link) refl
    | inr (i, found) ↦ rw (found, set_link) (length-set peers i _)
  ]

  pub find_peer-set_link :
      (j : NodeId) → find_peer (set_link link id now peers) j ≡ find_peer peers j
  unfolding set_link
  find_peer-set_link j = elim (Option-cases (find_peer peers id)) [
    | inl lost ↦ rw (lost, set_link) refl
    | inr (i, found) ↦
        rw (found, set_link) (find_index-set peer_id peers i _ j (same peers id i found))
  ]

  pub Distinct-set_link : Distinct peer_id peers → Distinct peer_id (set_link link id now peers)
  unfolding set_link
  Distinct-set_link d = elim (Option-cases (find_peer peers id)) [
    | inl lost ↦ rw (lost, set_link) d
    | inr (i, found) ↦
        rw (found, set_link) (Distinct-set peer_id peers i _ (same peers id i found) d)
  ]

  -- The moved peer has the link and the time; every other peer is as before.
  pub peer_of-set_link :
      (j : NodeId)
      → peer_of (set_link link id now peers) j ≡ (
          if mem_eq id j
          then (elim (peer_of peers id) [
            | none ↦ none
            | some p ↦ some (record p { link_type = link; last_active_ms = now })
          ])
          else peer_of peers j)
  unfolding set_link
  peer_of-set_link j = elim (Option-cases (find_peer peers id)) [
    | inl lost ↦
        let absent = lookup-eq-none peer_id peers id lost in
        rw (lost, set_link, absent)
          (elim (Bool-cases (mem_eq id j)) [
            | inl here ↦ rw here (ap (peer_of peers) (sym (mem_eq→eq id j here)) ∙ absent)
            | inr apart ↦ rw apart refl
          ])
    | inr (i, found) ↦
        let at = lookup-find_index peer_id peers id i zero_peer found in
        let moved = record (get_or peers i zero_peer) { link_type = link; last_active_ms = now } in
        rw (found, set_link, at.0)
          (lookup-set peer_id peers i moved j (same peers id i found)
            ∙ ap (λ (k : NodeId). if mem_eq k j then some moved else peer_of peers j) at.1)
  ]

-- A list is its front and its last entry.
front_last :
    (x : Peer) (xs : List Peer)
    → x ∷ xs ≡ take (length xs) (x ∷ xs) ++ get_or (x ∷ xs) (length xs) zero_peer ∷ []
front_last x [] = refl
front_last x (y ∷ ys) = ap (λ (t : List Peer). x ∷ t) (front_last y ys)

-- What a list does not hold, neither its front nor its last entry is.
front-miss :
    (ys : List Peer) (v : Peer) (j : NodeId)
    → find_peer (ys ++ v ∷ []) j ≡ none
    → (find_peer ys j ≡ none) × (mem_eq v.node_id j ≡ false)
front-miss [] v j h = ground arith
front-miss (y ∷ ys) v j h = ground (arith, front-miss ys v j)

Distinct-split :
    (ys : List Peer) (v : Peer)
    → Distinct peer_id (ys ++ v ∷ [])
    → (find_peer ys v.node_id ≡ none) × Distinct peer_id ys
Distinct-split [] v d = (refl, tt)
Distinct-split (y ∷ ys) v (n, d) =
    let ih = Distinct-split ys v d in
    let miss = front-miss ys v y.node_id n in
    let apart : mem_eq y.node_id v.node_id ≡ false = mem_eq_comm y.node_id v.node_id ∙ miss.1 in
    (rw (apart, ih.0) refl, (miss.0, ih.1))

-- The last entry moved to the front.
rotated :
    (ys : List Peer) (v : Peer) (j : NodeId)
    → Distinct peer_id (ys ++ v ∷ [])
    → peer_of (v ∷ ys) j ≡ peer_of (ys ++ v ∷ []) j
rotated ys v j d = sym (lookup-append peer_id ys v j (Distinct-split ys v d).0)

-- What a removal leaves.
pub record IsRemoval (xs : List Peer) (i : ℕ) (out : List Peer) : Type 0 where
  pub reads :
      (j : NodeId)
      → peer_of out j ≡ (if mem_eq (get_or xs i zero_peer).node_id j then none else peer_of xs j)
  pub distinct : Distinct peer_id out
  pub size : length out + 1 ≡ length xs

remove_at-head :
    (x y : Peer) (ys : List Peer)
    → remove_at 0 (x ∷ y ∷ ys) ≡ get_or (y ∷ ys) (length ys) zero_peer ∷ take (length ys) (y ∷ ys)
unfolding remove_at
remove_at-head x y ys =
    let n = length ys in
    let last : suc (suc n) - 1 ≡ suc n = omega arith in
    let apart : (0 == suc n) ≡ false = ground arith in rw (last, apart) refl

remove_at-tail :
    (x y : Peer) (ys : List Peer) (i : ℕ)
    → remove_at (suc i) (x ∷ y ∷ ys) ≡ x ∷ remove_at i (y ∷ ys)
unfolding remove_at
remove_at-tail x y ys i =
    let n = length ys in
    let outer : suc (suc n) - 1 ≡ suc n = omega arith in
    let inner : suc n - 1 ≡ n = omega arith in
    let tests : (suc i == suc n) ≡ (i == n) = ground arith in
    rw (outer, inner, tests) (elim (Bool-cases (i == n)) [ inl e ↦ rw e refl | inr e ↦ rw e refl ])

remove_at_nil : (x : Peer) → remove_at 0 (x ∷ []) ≡ []
unfolding remove_at
remove_at_nil x = refl

-- Behind an entry its node is not found.
skip :
    (x : Peer) (xs : List Peer) (j : NodeId)
    → find_peer xs x.node_id ≡ none
    → peer_of xs j ≡ (if mem_eq x.node_id j then none else peer_of (x ∷ xs) j)
skip x xs j n = elim (Bool-cases (mem_eq x.node_id j)) [
  | inl here ↦
      rw here
        (ap (peer_of xs) (sym (mem_eq→eq x.node_id j here)) ∙ lookup-eq-none peer_id xs x.node_id n)
  | inr apart ↦ rw apart refl
]

pub remove_at-IsRemoval :
    (xs : List Peer) (i : ℕ) → i < length xs → Distinct peer_id xs → IsRemoval xs i (remove_at i xs)
remove_at-IsRemoval [] i h d = absurd (omega (arith, h))
remove_at-IsRemoval (x ∷ []) zero h (n, d) =
    rw (remove_at_nil x) (record { reads = λ j. skip x [] j refl; distinct = tt; size = refl })
remove_at-IsRemoval (x ∷ []) (suc i) h d = absurd (omega (arith, h))
remove_at-IsRemoval (x ∷ y ∷ ys) zero h (n, d) =
    let front = take (length ys) (y ∷ ys) in
    let v = get_or (y ∷ ys) (length ys) zero_peer in
    let split = front_last y ys in
    let d' : Distinct peer_id (front ++ v ∷ []) = rw (← split) d in
    let parts = Distinct-split front v d' in
    let read =
      λ (j : NodeId). rotated front v j d' ∙ ap (λ (l : List Peer). peer_of l j) (sym split) in
    rw (remove_at-head x y ys) (record {
      reads = λ j. read j ∙ skip x (y ∷ ys) j n;
      distinct = (parts.0, parts.1);
      size = omega (arith, length-take (length ys) (y ∷ ys));
    })
remove_at-IsRemoval (x ∷ y ∷ ys) (suc i) h (n, d) =
    let ih = remove_at-IsRemoval (y ∷ ys) i (omega (arith, h)) d in
    let at = get_or (y ∷ ys) i zero_peer in
    let far : mem_eq x.node_id at.node_id ≡ false =
      get_or-ne peer_id (x ∷ y ∷ ys) 0 (suc i) zero_peer (omega arith) h
        (λ e. absurd (omega (arith, e))) (n, d) in
    let far' : mem_eq at.node_id x.node_id ≡ false = mem_eq_comm at.node_id x.node_id ∙ far in
    let gone : peer_of (remove_at i (y ∷ ys)) x.node_id ≡ none =
      ih.reads x.node_id ∙ rw far' (lookup-eq-none peer_id (y ∷ ys) x.node_id n) in
    rw (remove_at-tail x y ys i) (record {
      reads = λ j. elim (Bool-cases (mem_eq x.node_id j)) [
        | inl here ↦
            let e = mem_eq→eq x.node_id j here in
            let apart : mem_eq at.node_id j ≡ false =
              ap (λ (k : NodeId). mem_eq at.node_id k) (sym e) ∙ far' in
            rw (here, apart) refl
        | inr other ↦ rw other (ih.reads j)
      ];
      distinct = (find_index_of_lookup peer_id _ x.node_id gone, ih.distinct);
      size = omega (arith, ih.size);
    })
