-- ===== src/Plumtree/Once.antt =====
-- Delivery over a sequence of received messages.
use libwake.Common.{
  ℕ, suc, ◌+◌, ◌≡◌, ◌≤◌, ◌<◌, ◌⊎◌, refl, sym, ◌∙◌, ap, Bool, true, false, List, [], ◌∷◌, ◌++◌, ◌||◌,
  if◌then◌else◌, length, get_or, count_if, count_if-append, mem_eq, mem_eq→eq, arith, Bool-cases,
  inl, inr, inc64, Option-cases, count_if-set,
}
use libwake.Swim.Types.{NodeId}
use libwake.Plumtree.Types.{Link, MsgType, MsgId, Peer, CacheEntry, Config, Plumtree}
use libwake.Plumtree.Cache.{is_occupied, zero_entry, has_msg, cache_insert, new_entry, cache_find}
use libwake.Plumtree.Output.{Output, Hooks, when, push_to, push_others}
use libwake.Plumtree.Handlers.{recv_gossip, recv_duplicate, recv_new}
use libwake.Plumtree.Invariant.{IsValid}
use libwake.Plumtree.CacheLaws.{cache_insert-cases, is_cached, is_cached-set, free_holds}
use libwake.Plumtree.Preserve.{recv_gossip-IsValid}
use libwake.Plumtree.Peers.{set_link, demote_lazy, promote_eager}
use libwake.Plumtree.PendingLaws.{pending_remove_msg-frame}
use libwake.Plumtree.Delivery.{recv_gossip-seen, recv_gossip-new, stored-frame}

-- A received GOSSIP.
pub record Reception : Type 0 where
  pub from : NodeId
  pub id : MsgId
  pub payload : List ℕ
  pub now : ℕ

abbrev pub receive : Plumtree → Hooks → Reception → Bool × Plumtree × List Output
receive pt hooks r = recv_gossip pt hooks r.from r.id r.payload r.now

-- What the callbacks are told over a sequence.
pub told : Plumtree → Hooks → List Reception → List Output
told pt hooks [] = []
told pt hooks (r ∷ rs) = let one = receive pt hooks r in one.2 ++ told one.1 hooks rs

-- Is this the delivery of the message?
abbrev pub delivers : MsgId → Output → Bool
delivers id (Output.deliver i payload from) = mem_eq i id
delivers id (Output.send t to i payload) = false

abbrev pub mentions : MsgId → List Reception → Bool
mentions id [] = false
mentions id (r ∷ rs) = mem_eq r.id id || mentions id rs

-- Nothing that is passed on is a delivery.
Link-cases : (l : Link) → (l ≡ Link.eager) ⊎ (l ≡ Link.lazy)
Link-cases Link.eager = inl refl
Link-cases Link.lazy = inr refl

delivers-push_to :
    (id : MsgId) (p : Peer) (m : MsgId) (payload : List ℕ)
    → delivers id (push_to p m payload) ≡ false
unfolding push_to
delivers-push_to id p m payload = elim (Link-cases p.link_type) [
  | inl e ↦ rw (e) refl
  | inr e ↦ rw (e) refl
]

sends_only :
    (id : MsgId) (from : NodeId) (peers : List Peer) (m : MsgId) (payload : List ℕ)
    → count_if (delivers id) (push_others from peers m payload) ≡ 0
unfolding push_others
sends_only id from [] m payload = refl
sends_only id from (p ∷ ps) m payload =
    let ih = sends_only id from ps m payload in
    elim (Bool-cases (mem_eq p.node_id from)) [
      | inl e ↦ rw (e) ih
      | inr e ↦ rw (e, delivers-push_to id p m payload) ih
    ]

-- With every slot occupied the count is the size.
all_occupied :
    (cs : List CacheEntry)
    → ((k : ℕ) → k < length cs → (get_or cs k zero_entry).occupied ≡ true)
    → count_if is_occupied cs ≡ length cs
all_occupied [] h = refl
all_occupied (c ∷ cs) h =
    let here = h 0 (omega arith) in
    let ih = all_occupied cs (λ k l. h (suc k) (omega (arith, l))) in ground (arith, here, ih)

-- With room in the cache a message is added and none is lost.
stored_with_room :
    (pt : Plumtree) (id : MsgId) (payload : List ℕ) (now : ℕ)
    → IsValid pt
    → pt.cache_count < pt.config.cache_size
    → let after = cache_insert pt id payload now in
      ((j : MsgId) → has_msg after j ≡ (mem_eq id j || has_msg pt j))
      × (count_if is_occupied after.cache ≡ pt.cache_count + 1)
stored_with_room pt id payload now v room =
    let e = new_entry id payload now in
    let some_slot : 0 < length pt.cache = omega (arith, v.slots, v.some_cache) in
    elim (cache_insert-cases pt id payload now some_slot) [
      | inl (i, path, f) ↦
          let balance = count_if-set is_occupied pt.cache i e zero_entry f.within in
          let free = f.free in
          let counted = v.counted in
          rw path (
            (λ j.
                is_cached-set pt.cache i id payload now j f.within
                  (free_holds j (get_or pt.cache i zero_entry) free)),
            ground (arith, balance, free, counted),
          )
      | inr (i, path, f) ↦
          absurd (omega (arith, all_occupied pt.cache f.full, v.counted, v.slots, room))
    ]

nought : (b : Bool) → let z : ℕ = 0 in z ≡ (if b then z else z)
nought true = refl
nought false = refl

none_when :
    (id : MsgId) (out : List Output) (b : Bool)
    → count_if (delivers id) out ≡ 0
    → count_if (delivers id) (when b out) ≡ 0
none_when id out true h = h
none_when id out false h = refl

-- A GOSSIP never changes the configuration.
config-recv_gossip :
    (pt : Plumtree) (hooks : Hooks) (from : NodeId) (id : MsgId) (payload : List ℕ) (now : ℕ)
    → (recv_gossip pt hooks from id payload now).1.config ≡ pt.config
unfolding recv_gossip recv_duplicate recv_new demote_lazy promote_eager
config-recv_gossip pt hooks from id payload now =
    let c = record pt { messages_received = inc64 pt.messages_received } in
    elim (Option-cases (cache_find c id)) [
      | inl new ↦
          rw (new, recv_gossip)
            (ap (λ (q : Plumtree). q.config)
                (pending_remove_msg-frame (cache_insert c id payload now) id)
              ∙ (stored-frame c id payload now).2)
      | inr (i, seen) ↦ rw (seen, recv_gossip) refl
    ]

-- What one GOSSIP does to the set of stored messages, and how often it delivers a message.
record Received (pt : Plumtree) (hooks : Hooks) (r : Reception) (id : MsgId) : Type 0 where
  known : (j : MsgId) → has_msg (receive pt hooks r).1 j ≡ (mem_eq r.id j || has_msg pt j)
  counted : (receive pt hooks r).1.cache_count ≤ pt.cache_count + 1
  delivered :
      count_if (delivers id) (receive pt hooks r).2
      ≡ (if has_msg pt id then 0 else if mem_eq r.id id then 1 else 0)

module _ (pt : Plumtree) (hooks : Hooks) (r : Reception) (id : MsgId) (v : IsValid pt)
    (can : hooks.can_deliver ≡ true) where
  abbrev one : Bool × Plumtree × List Output
  one = receive pt hooks r

  one-IsValid : IsValid one.1
  one-IsValid = recv_gossip-IsValid pt hooks r.from r.id r.payload r.now v

  received_seen : has_msg pt r.id ≡ true → Received pt hooks r id
  received_seen h =
      let (told, out, peers, cache, pending) =
        recv_gossip-seen pt hooks r.from r.id r.payload r.now h in
      record {
        known = λ j.
            (ap (λ (cs : List CacheEntry). is_cached cs j) cache
              ∙ elim (Bool-cases (mem_eq r.id j)) [
                | inl e ↦ rw (e) (sym (ap (has_msg pt) (mem_eq→eq r.id j e)) ∙ h)
                | inr e ↦ rw (e) refl
              ]);
        counted = omega (arith, one-IsValid.counted, v.counted, ap (count_if is_occupied) cache);
        delivered = rw (out) (elim (Bool-cases (mem_eq r.id id)) [
          | inl e ↦
              rw (e, sym (ap (has_msg pt) (mem_eq→eq r.id id e)) ∙ h)
                (none_when id (Output.send MsgType.prune r.from r.id [] ∷ []) hooks.can_send refl)
          | inr e ↦ rw (e) (
              none_when id (Output.send MsgType.prune r.from r.id [] ∷ []) hooks.can_send refl
              ∙ nought (has_msg pt id))
        ]);
      }

  received_new :
      has_msg pt r.id ≡ false → pt.cache_count < pt.config.cache_size → Received pt hooks r id
  received_new h room =
      let (told, out, peers, cache, known, free) =
        recv_gossip-new pt hooks r.from r.id r.payload r.now v h in
      let passed =
        none_when id (push_others r.from (set_link Link.eager r.from r.now pt.peers) r.id r.payload)
          hooks.can_send
          (sends_only id r.from (set_link Link.eager r.from r.now pt.peers) r.id r.payload) in
      let (found, balance) = stored_with_room pt r.id r.payload r.now v room in
      record {
        known = λ j. (ap (λ (cs : List CacheEntry). is_cached cs j) cache ∙ found j);
        counted =
            omega (arith, one-IsValid.counted, v.counted, ap (count_if is_occupied) cache, balance);
        delivered =
            rw (out, can)
              (elim (Bool-cases (mem_eq r.id id)) [
                | inl e ↦ rw (e, sym (ap (has_msg pt) (mem_eq→eq r.id id e)) ∙ h) (ap suc passed)
                | inr e ↦ rw (e) (passed ∙ nought (has_msg pt id))
              ]);
      }

received :
    (pt : Plumtree) (hooks : Hooks) (r : Reception) (id : MsgId)
    → IsValid pt
    → hooks.can_deliver ≡ true
    → pt.cache_count < pt.config.cache_size
    → Received pt hooks r id
received pt hooks r id v can room = elim (Bool-cases (has_msg pt r.id)) [
  | inl h ↦ received_seen pt hooks r id v can h
  | inr h ↦ received_new pt hooks r id v can h room
]

tally :
    (known same later : Bool)
    → let z : ℕ = 0 in
      (if known then z else if same then 1 else 0)
        + (if same || known then z else if later then 1 else 0)
      ≡ (if known then z else if same || later then 1 else 0)
tally true true later = refl
tally true false later = refl
tally false true later = refl
tally false false later = omega arith

-- Over any sequence of GOSSIPs that a valid state with a delivery callback receives and for which its
-- cache has room, with repetitions and from any senders, a message is delivered exactly once if it occurs and was not known before, and never otherwise.
pub told-once :
    (pt : Plumtree) (hooks : Hooks) (id : MsgId) (rs : List Reception)
    → IsValid pt
    → hooks.can_deliver ≡ true
    → pt.cache_count + length rs ≤ pt.config.cache_size
    → count_if (delivers id) (told pt hooks rs)
      ≡ (if has_msg pt id then 0 else if mentions id rs then 1 else 0)
unfolding told
told-once pt hooks id [] v can room = nought (has_msg pt id)
told-once pt hooks id (r ∷ rs) v can room =
    let next = (receive pt hooks r).1 in
    let here = received pt hooks r id v can (omega (arith, room)) in
    let rest = told-once next hooks id rs (one-IsValid pt hooks r id v can) can (
      omega (
        arith,
        here.counted,
        room,
        ap (λ (c : Config). c.cache_size) (config-recv_gossip pt hooks r.from r.id r.payload r.now),
      )) in
    count_if-append (delivers id) (receive pt hooks r).2 (told next hooks rs)
    ∙ rw (rest, here.delivered, here.known id)
        (tally (has_msg pt id) (mem_eq r.id id) (mentions id rs))
