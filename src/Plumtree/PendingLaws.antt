-- ===== src/Plumtree/PendingLaws.antt =====
-- What pending_add and pending_remove_msg do to the table of pending IHAVEs.
use libwake.Common.{
  ℕ, zero, suc, ◌+◌, ◌≡◌, ◌≤◌, ◌<◌, refl, sym, ◌∙◌, ap, Bool, true, false, none, some, List, [],
  ◌∷◌, if◌then◌else◌, length, get_or, set, mem_eq, mem_eq_refl, mem_eq→eq, mem_eq_comm, arith,
  Option-cases, inl, inr, get_or-set_self, length-set, inc32, count_if, count_if-set, ◌^◌,
}
use libwake.Common.Slots.{
  find_first, find_first-hit, find_first-miss, find_first-set_same, find_first-set_miss,
  find_first-set_new, oldest-min, oldest_from, count_if-le_length,
}
use libwake.Swim.Types.{NodeId}
use libwake.Plumtree.Types.{MsgId, Pending, Plumtree}
use libwake.Plumtree.Pending.{
  zero_pending, is_active, is_idle, stamped, awaits, pending_find, new_pending, pending_at,
  pending_add, pending_remove_msg,
}
use libwake.Plumtree.Invariant.{OneEach}

-- A slot that goes idle.
pub OneEach-set_idle :
    (ps : List Pending) (i : ℕ) (v : Pending) → v.active ≡ false → OneEach ps → OneEach (set ps i v)
OneEach-set_idle [] i v h o = tt
OneEach-set_idle (p ∷ ps) zero v h (n, o) = ((λ a. absurd (cc (a, h))), o)
OneEach-set_idle (p ∷ ps) (suc i) v h (n, o) = (
  (λ a. find_first-set_miss (awaits p.msg_id) ps i v (rw h refl) (n a)),
  OneEach-set_idle ps i v h o,
)

-- A slot for a message that none awaits.
pub OneEach-set_new :
    (ps : List Pending) (i : ℕ) (v : Pending)
    → find_first (awaits v.msg_id) ps ≡ none
    → OneEach ps
    → OneEach (set ps i v)
OneEach-set_new [] i v h o = tt
OneEach-set_new (p ∷ ps) zero v h (n, o) = ((λ a. ground (arith, h)), o)
OneEach-set_new (p ∷ ps) (suc i) v h (n, o) = (
  (λ a.
      find_first-set_miss (awaits p.msg_id) ps i v
        (ground (arith, h, a, mem_eq_comm p.msg_id v.msg_id)) (n a)),
  OneEach-set_new ps i v (ground (arith, h)) o,
)

-- A slot that awaits the same message as before.
pub OneEach-set_same :
    (ps : List Pending) (i : ℕ) (v d : Pending)
    → v.msg_id ≡ (get_or ps i d).msg_id
    → v.active ≡ (get_or ps i d).active
    → OneEach ps
    → OneEach (set ps i v)
OneEach-set_same [] i v d h a o = tt
OneEach-set_same (p ∷ ps) zero v d h a (n, o) = rw h ((λ t. n (sym a ∙ t)), o)
OneEach-set_same (p ∷ ps) (suc i) v d h a (n, o) = (
  (λ t. find_first-set_same (awaits p.msg_id) ps i v d (rw (h, a) refl) ∙ n t),
  OneEach-set_same ps i v d h a o,
)

-- The one slot for a message goes idle: none awaits it any more.
pub removed :
    (ps : List Pending) (id : MsgId) (i : ℕ) (v : Pending)
    → v.active ≡ false
    → OneEach ps
    → find_first (awaits id) ps ≡ some i
    → find_first (awaits id) (set ps i v) ≡ none
removed [] id i v h o f = ground (arith, f)
removed (p ∷ ps) id zero v h (n, o) f =
    let active : p.active ≡ true = ground (arith, f) in
    let here : mem_eq p.msg_id id ≡ true = ground (arith, f) in
    rw h (
      ap (λ o. elim o [ none ↦ none | some k ↦ some (suc k) ])
        (ap (λ (m : MsgId). find_first (awaits m) ps) (sym (mem_eq→eq p.msg_id id here))
          ∙ n active))
removed (p ∷ ps) id (suc i) v h (n, o) f = ground (arith, removed ps id i v h o)

-- A state in which one slot awaits a message, from a node since a time.
pub record IsRecorded (pt after : Plumtree) (id : MsgId) (from : NodeId) (now : ℕ) : Type 0 where
  pub slot : ℕ
  pub frame : after ≡ record pt { pending = after.pending; pending_count = after.pending_count }
  pub size : length after.pending ≡ length pt.pending
  pub found : find_first (awaits id) after.pending ≡ some slot
  pub entry : get_or after.pending slot zero_pending ≡ new_pending id from now
  pub one_each : OneEach after.pending
  pub counted : after.pending_count ≡ count_if is_active after.pending

-- The table before a message is recorded.
pub record IsTable (pt : Plumtree) : Type 0 where
  pub some_slots : 0 < length pt.pending
  pub small : length pt.pending < 2 ^ 16
  pub counted : pt.pending_count ≡ count_if is_active pt.pending
  pub one_each : OneEach pt.pending

abbrev put : Plumtree → ℕ → Pending → ℕ → Plumtree
put pt i v n = record pt { pending = set pt.pending i v; pending_count = n }

active_of : (p : Pending) → is_idle p ≡ false → p.active ≡ true
active_of p h = ground (arith, h)

-- With every slot active, the search finds the one that was stamped first.
find_victim :
    (ps : List Pending)
    → 0 < length ps
    → ((k : ℕ) → k < length ps → (get_or ps k zero_pending).active ≡ true)
    → (i : ℕ) × (ms : ℕ) × (oldest_from is_active stamped ps 0 none ≡ some (i, ms))
      × (i < length ps)
      × ((k : ℕ)
          → k < length ps
          → (get_or ps i zero_pending).received_ms ≤ (get_or ps k zero_pending).received_ms)
find_victim [] h all = absurd (omega (arith, h))
find_victim (p ∷ ps) h all =
    let active : p.active ≡ true = all 0 h in
    let (b, s, e, l, m) = oldest-min is_active stamped p ps zero_pending in
    let first =
      ap
        (λ (a : Bool).
          oldest_from is_active stamped ps 1 (if a then some (0, p.received_ms) else none))
        active in
    (b, s, first ∙ e, l, λ k hk. m k hk (all k hk))

module _ (pt : Plumtree) (id : MsgId) (from : NodeId) (now : ℕ) (t : IsTable pt) where
  abbrev fresh : Pending
  fresh = new_pending id from now

  awaits-fresh : awaits id fresh ≡ true
  awaits-fresh = mem_eq_refl id

  -- A new slot for a message that none awaits, over an idle slot or over another message's.
  put_new :
      (i n : ℕ)
      → find_first (awaits id) pt.pending ≡ none
      → i < length pt.pending
      → n + (if (pending_at pt i).active then 1 else 0) ≡ pt.pending_count + 1
      → IsRecorded pt (put pt i fresh n) id from now
  put_new i n unknown l count =
      let balance = count_if-set is_active pt.pending i fresh zero_pending l in
      let counted = t.counted in
      record {
        slot = i;
        frame = refl;
        size = length-set pt.pending i fresh;
        found = find_first-set_new (awaits id) pt.pending i fresh unknown awaits-fresh l;
        entry = get_or-set_self pt.pending i fresh zero_pending l;
        one_each = OneEach-set_new pt.pending i fresh unknown t.one_each;
        counted = ground (arith, balance, count, counted);
      }

  put_again :
      (i : ℕ)
      → find_first (awaits id) pt.pending ≡ some i
      → IsRecorded pt
          (put pt i
            (record (pending_at pt i) { from_id = from; received_ms = now })
            pt.pending_count)
          id
          from
          now
  put_again i known =
      let hit = find_first-hit (awaits id) pt.pending i zero_pending known in
      let active : (pending_at pt i).active ≡ true = ground (arith, hit.1) in
      let here : mem_eq (pending_at pt i).msg_id id ≡ true = ground (arith, hit.1) in
      let msg = mem_eq→eq (pending_at pt i).msg_id id here in
      let v = record (pending_at pt i) { from_id = from; received_ms = now } in
      let balance = count_if-set is_active pt.pending i v zero_pending hit.0 in
      let counted = t.counted in
      record {
        slot = i;
        frame = refl;
        size = length-set pt.pending i v;
        found = find_first-set_same (awaits id) pt.pending i v zero_pending refl ∙ known;
        entry =
            get_or-set_self pt.pending i v zero_pending hit.0
            ∙ ap (λ (m : MsgId). record v { msg_id = m }) msg
            ∙ ap (λ (a : Bool). record fresh { active = a }) active;
        one_each = OneEach-set_same pt.pending i v zero_pending refl refl t.one_each;
        counted = ground (arith, balance, counted);
      }

  -- Recording an IHAVE: one slot awaits the message from the sender, with its timer started now.
  pub pending_add-IsRecorded : IsRecorded pt (pending_add pt id from now) id from now
  unfolding pending_add
  pending_add-IsRecorded = elim (Option-cases (pending_find pt id)) [
    | inr (i, known) ↦ rw (known, pending_add) (put_again i known)
    | inl unknown ↦ elim (Option-cases (find_first is_idle pt.pending)) [
      | inr (i, idle) ↦
          let hit = find_first-hit is_idle pt.pending i zero_pending idle in
          let free : (pending_at pt i).active ≡ false = ground (arith, hit.1) in
          rw (unknown, idle, pending_add)
            (put_new i (inc32 pt.pending_count) unknown hit.0 (
              let few = count_if-le_length is_active pt.pending in
              let counted = t.counted in
              let small = t.small in ground (arith, free, counted, few, small)))
      | inl none_idle ↦
          let all = λ (k : ℕ) (l : k < length pt.pending).
            active_of (pending_at pt k)
              (find_first-miss is_idle pt.pending k zero_pending none_idle l) in
          let (i, ms, e, l, least) = find_victim pt.pending t.some_slots all in
          let busy = all i l in
          rw (unknown, none_idle, e, pending_add)
            (put_new i pt.pending_count unknown l (ground (arith, busy)))
    ]
  ]

-- No slot awaits the message.
pub pending_remove_msg-none :
    (pt : Plumtree) (id : MsgId)
    → OneEach pt.pending
    → pending_find (pending_remove_msg pt id) id ≡ none
unfolding pending_remove_msg
pending_remove_msg-none pt id o = elim (Option-cases (pending_find pt id)) [
  | inl unknown ↦ rw (unknown, pending_remove_msg) unknown
  | inr (i, known) ↦
      rw (known, pending_remove_msg)
        (removed pt.pending id i (record (pending_at pt i) { active = false }) refl o known)
]

pub pending_remove_msg-IsTable :
    (pt : Plumtree) (id : MsgId) → IsTable pt → IsTable (pending_remove_msg pt id)
unfolding pending_remove_msg
pending_remove_msg-IsTable pt id t = elim (Option-cases (pending_find pt id)) [
  | inl unknown ↦ rw (unknown, pending_remove_msg) t
  | inr (i, known) ↦
      let v = record (pending_at pt i) { active = false } in
      let hit = find_first-hit (awaits id) pt.pending i zero_pending known in
      let busy : (pending_at pt i).active ≡ true = ground (arith, hit.1) in
      let balance = count_if-set is_active pt.pending i v zero_pending hit.0 in
      let counted = t.counted in
      rw (known, pending_remove_msg)
        (record {
          some_slots = omega (arith, t.some_slots, length-set pt.pending i v);
          small = omega (arith, t.small, length-set pt.pending i v);
          counted = ground (arith, balance, counted, busy);
          one_each = OneEach-set_idle pt.pending i v refl t.one_each;
        })
]

-- Nothing but the table and its count changes, and the table keeps its size.
pub pending_remove_msg-frame :
    (pt : Plumtree) (id : MsgId)
    → let after = pending_remove_msg pt id in
      after ≡ record pt { pending = after.pending; pending_count = after.pending_count }
unfolding pending_remove_msg
pending_remove_msg-frame pt id = elim (Option-cases (pending_find pt id)) [
  | inl unknown ↦ rw (unknown, pending_remove_msg) refl
  | inr (i, known) ↦ rw (known, pending_remove_msg) refl
]

pub pending_remove_msg-length :
    (pt : Plumtree) (id : MsgId) → length (pending_remove_msg pt id).pending ≡ length pt.pending
unfolding pending_remove_msg
pending_remove_msg-length pt id = elim (Option-cases (pending_find pt id)) [
  | inl unknown ↦ rw (unknown, pending_remove_msg) refl
  | inr (i, known) ↦ rw (known, pending_remove_msg) (length-set pt.pending i _)
]
