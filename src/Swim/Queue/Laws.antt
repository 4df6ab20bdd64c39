-- ===== src/Swim/Queue/Laws.antt =====
-- What `queue_update` does to the queue as a table keyed by node.
use libwake.Common.{
  ℕ, zero, suc, ◌≡◌, ◌≤◌, ◌<◌, Option, none, some, List, [], ◌∷◌, ◌++◌, false, ltb, if◌then◌else◌,
  length, set, inl, inr, ◌⊎◌, get_or, get_or_default, Bool, true, refl, ◌∙◌, mem_eq, mem_eq_refl,
  mem_eq→eq, ap, arith, Bool-cases, Option-cases, length-set, length-append,
}
use libwake.Common.Keyed.{
  find_index, lookup, Distinct, Distinct-set, Distinct-append, Distinct-set_new, lookup-set,
  lookup-append, lookup-set_new, lookup-get, lookup-eq-none,
}
use libwake.Swim.Types.{NodeId, Update}
use libwake.Swim.Queue.{node_of, enqueue, worst_index}
use libwake.Swim.Queue.Eviction.{worst_index-max}

-- No update was sent 65535 times.
abbrev pub IsModest : List Update → Type 0
IsModest [] = Unit
IsModest (u ∷ us) = (u.piggyback_count < 65535) × IsModest us

IsModest-set :
    (us : List Update) (i : ℕ) (u : Update)
    → u.piggyback_count < 65535
    → IsModest us
    → IsModest (set us i u)
IsModest-set [] i u h m = tt
IsModest-set (x ∷ us) zero u h m = (h, m.1)
IsModest-set (x ∷ us) (suc i) u h m = (m.0, IsModest-set us i u h m.1)

IsModest-append :
    (us : List Update) (u : Update)
    → u.piggyback_count < 65535
    → IsModest us
    → IsModest (us ++ u ∷ [])
IsModest-append [] u h m = (h, tt)
IsModest-append (x ∷ us) u h m = (m.0, IsModest-append us u h m.1)

-- A queue of a configured size: no more entries than that, and one for a node.
pub record IsQueue (size : ℕ) (us : List Update) : Type 0 where
  pub room : 0 < size
  pub fits : length us ≤ size
  pub distinct : Distinct node_of us
  pub modest : IsModest us

pub enqueue-IsQueue :
    (size : ℕ) (us : List Update) (u : Update)
    → u.piggyback_count < 65535
    → IsQueue size us
    → IsQueue size (enqueue size us (find_index node_of us u.node_id) u)
unfolding enqueue
enqueue-IsQueue size us u h q = elim (Option-cases (find_index node_of us u.node_id)) [
  | inl new ↦ rw new (elim (Bool-cases (ltb (length us) size)) [
    | inl room ↦ rw room (record {
      room = q.room;
      fits = rw length-append (ground arith);
      distinct = Distinct-append node_of us u new q.distinct;
      modest = IsModest-append us u h q.modest;
    })
    | inr none_left ↦ rw none_left (record {
      room = q.room;
      fits = rw length-set q.fits;
      distinct = Distinct-set_new node_of us (worst_index us) u new q.distinct;
      modest = IsModest-set us (worst_index us) u h q.modest;
    })
  ])
  | inr (i, old) ↦ rw old (record {
    room = q.room;
    fits = rw length-set q.fits;
    distinct = Distinct-set node_of us i u old q.distinct;
    modest = IsModest-set us i u h q.modest;
  })
]

-- The entry that a full queue gives up for a new node: none was sent more often.
pub record IsWorst (us : List Update) (victim : Update) : Type 0 where
  pub most_sent :
      (k : ℕ) (d : Update)
      → k < length us
      → (get_or us k d).piggyback_count ≤ victim.piggyback_count

-- The queue as a map from nodes to updates, with the new one put in.
abbrev pub replaced : List Update → Update → NodeId → Option Update
replaced us u j = if mem_eq u.node_id j then some u else lookup node_of us j

-- A full queue has lost one entry, of another node than the new update's, and no other.
pub record IsEviction (size : ℕ) (us : List Update) (u : Update) (out : List Update) : Type 0 where
  pub victim : Update
  pub full : length us ≡ size
  pub new : lookup node_of us u.node_id ≡ none
  pub queued : lookup node_of us victim.node_id ≡ some victim
  pub worst : IsWorst us victim
  pub apart : mem_eq u.node_id victim.node_id ≡ false
  pub reads :
      (j : NodeId)
      → lookup node_of out j ≡ (if mem_eq victim.node_id j then none else replaced us u j)

order_of :
    (a b : Bool) (x y : Option Update)
    → (a ≡ true → b ≡ true → ⊥)
    → (if a then x else if b then none else y) ≡ (if b then none else if a then x else y)
order_of true true x y h = absurd (h refl refl)
order_of true false x y h = refl
order_of false b x y h = refl

module _ (size : ℕ) (us : List Update) (u : Update) (q : IsQueue size us) where
  -- A full queue without an entry for the node.
  evict_effect :
      find_index node_of us u.node_id ≡ none
      → ltb (length us) size ≡ false
      → IsEviction size us u (set us (worst_index us) u)
  evict_effect new full =
      let nonempty : 0 < length us = ground (arith, q.room, q.fits) in
      let worst = get_or us (worst_index us) u in
      let inside = (worst_index-max us 0 u nonempty).0 in
      let found =
        lookup-get node_of us (worst_index us) u worst.node_id inside (mem_eq_refl worst.node_id)
          q.distinct in
      let unknown = lookup-eq-none node_of us u.node_id new in
      let apart : mem_eq u.node_id worst.node_id ≡ false =
        elim (Bool-cases (mem_eq u.node_id worst.node_id)) [
          | inr other ↦ other
          | inl same ↦
              let both = ap (lookup node_of us) (mem_eq→eq u.node_id worst.node_id same) in
              absurd (cc (both, unknown, found))
        ] in
      record {
        victim = worst;
        full = ground (arith, q.fits, full);
        new = unknown;
        queued = found;
        worst = record {
          most_sent = λ k d' h. rw (get_or_default us k d' u h) ((worst_index-max us k u h).1);
        };
        apart = apart;
        reads = λ j.
            let read = lookup-set_new node_of us (worst_index us) u u j inside new q.distinct in
            read
            ∙ order_of (mem_eq u.node_id j) (mem_eq worst.node_id j) (some u) (lookup node_of us j)
                (λ a b. cc (apart, ap (mem_eq u.node_id) (mem_eq→eq worst.node_id j b), a));
      }

  -- On a well-formed queue the queue afterwards holds the new update for its node and for every other
  -- node what it held, unless the queue was full and held nothing for the node: then it does so but for
  -- one node alone, the same whatever node is asked for, whose update is lost; no update in the queue
  -- was sent more often than that one.
  pub enqueue-effect :
      let queued = enqueue size us (find_index node_of us u.node_id) u in
      ((j : NodeId) → lookup node_of queued j ≡ replaced us u j) ⊎ IsEviction size us u queued
  unfolding enqueue
  enqueue-effect = elim (Option-cases (find_index node_of us u.node_id)) [
    | inr (i, old) ↦ rw old (inl (λ j. lookup-set node_of us i u j old))
    | inl new ↦ rw new (elim (Bool-cases (ltb (length us) size)) [
      | inl room ↦ rw room (inl (λ j. lookup-append node_of us u j new))
      | inr full ↦ rw full (inr (evict_effect new full))
    ])
  ]
