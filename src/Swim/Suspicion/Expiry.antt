-- ===== src/Swim/Suspicion/Expiry.antt =====
-- `wake_swim_check_suspects`: which members it buries, and what its loop leaves alone.
use libwake.Common.{
  ℕ, suc, ◌≡◌, refl, ◌∙◌, ap, none, some, List, [], ◌∷◌, if◌then◌else◌, length, arith, Bool-cases,
  inl, inr, count_if, mem_eq,
}
use libwake.Common.Keyed.{find_index, Distinct, lookup}
use libwake.Swim.Types.{NodeId, Member, Swim}
use libwake.Swim.Queue.Laws.{IsQueue, enqueue-IsQueue}
use libwake.Swim.Members.{id_of}
use libwake.Swim.Suspicion.{is_expired, buried, expire_one, expire_loop}

-- What one sweep makes of a member.
abbrev pub after_sweep : ℕ → ℕ → Member → Member
after_sweep timeout now m = if is_expired timeout now m then buried now m else m

abbrev pub sweep : ℕ → ℕ → List Member → List Member
sweep timeout now [] = []
sweep timeout now (m ∷ ms) = after_sweep timeout now m ∷ sweep timeout now ms

-- The loop changes no field of the state but the queue and three counters.
pub record Frame (sw sw' : Swim) : Type 0 where
  pub config : sw'.config ≡ sw.config
  pub alive_count : sw'.alive_count ≡ sw.alive_count
  pub probe_order : sw'.probe_order ≡ sw.probe_order
  pub self_id : sw'.self_id ≡ sw.self_id
  pub health_score : sw'.health_score ≡ sw.health_score
  pub rounds_completed : sw'.rounds_completed ≡ sw.rounds_completed
  pub queue : IsQueue sw.config.update_queue_size sw'.updates

expire_one-Frame :
    (timeout now : ℕ) (m : Member) (sw : Swim)
    → IsQueue sw.config.update_queue_size sw.updates
    → Frame sw (expire_one timeout now m sw).1
unfolding expire_one
expire_one-Frame timeout now m sw q = elim (Bool-cases (is_expired timeout now m)) [
  | inl late ↦ rw late (record {
    config = refl;
    alive_count = refl;
    probe_order = refl;
    self_id = refl;
    health_score = refl;
    rounds_completed = refl;
    queue = enqueue-IsQueue sw.config.update_queue_size sw.updates _ (omega arith) q;
  })
  | inr kept ↦ rw kept (record {
    config = refl;
    alive_count = refl;
    probe_order = refl;
    self_id = refl;
    health_score = refl;
    rounds_completed = refl;
    queue = q;
  })
]

pub expire_loop-Frame :
    (timeout now : ℕ) (ms : List Member) (sw : Swim)
    → IsQueue sw.config.update_queue_size sw.updates
    → Frame sw (expire_loop timeout now ms sw).1
unfolding expire_loop
expire_loop-Frame timeout now [] sw q = record {
  config = refl;
  alive_count = refl;
  probe_order = refl;
  self_id = refl;
  health_score = refl;
  rounds_completed = refl;
  queue = q;
}
expire_loop-Frame timeout now (m ∷ ms) sw q =
    let one = expire_one-Frame timeout now m sw q in
    let sw' = (expire_one timeout now m sw).1 in
    let q' : IsQueue sw'.config.update_queue_size sw'.updates = rw (one.config) (one.queue) in
    let rest = expire_loop-Frame timeout now ms sw' q' in
    record {
      config = rest.config ∙ one.config;
      alive_count = rest.alive_count ∙ one.alive_count;
      probe_order = rest.probe_order ∙ one.probe_order;
      self_id = rest.self_id ∙ one.self_id;
      health_score = rest.health_score ∙ one.health_score;
      rounds_completed = rest.rounds_completed ∙ one.rounds_completed;
      queue = rw (one.config) at (rest.queue);
    }

expire_one_parts :
    (timeout now : ℕ) (m : Member) (sw : Swim)
    → let r = expire_one timeout now m sw in
      (r.0 ≡ after_sweep timeout now m) × (r.2 ≡ (if is_expired timeout now m then 1 else 0))
unfolding expire_one
expire_one_parts timeout now m sw = elim (Bool-cases (is_expired timeout now m)) [
  | inl late ↦ rw late (refl, refl)
  | inr kept ↦ rw kept (refl, refl)
]

-- The loop writes the sweep, and counts the expired.
pub expire_loop-sweep :
    (timeout now : ℕ) (ms : List Member) (sw : Swim)
    → let r = expire_loop timeout now ms sw in
      (r.0 ≡ sweep timeout now ms) × (r.2 ≡ count_if (is_expired timeout now) ms)
unfolding expire_loop
expire_loop-sweep timeout now [] sw = (refl, refl)
expire_loop-sweep timeout now (m ∷ ms) sw = ground (
  arith,
  expire_loop-sweep timeout now ms (expire_one timeout now m sw).1,
  expire_one_parts timeout now m sw,
)

-- The sweep changes no identifier.
node_id-after_sweep :
    (timeout now : ℕ) (m : Member) → (after_sweep timeout now m).node_id ≡ m.node_id
unfolding buried
node_id-after_sweep timeout now m = ground arith

pub find_index-sweep :
    (timeout now : ℕ) (ms : List Member) (j : NodeId)
    → find_index id_of (sweep timeout now ms) j ≡ find_index id_of ms j
find_index-sweep timeout now [] j = refl
find_index-sweep timeout now (m ∷ ms) j =
    rw (node_id-after_sweep timeout now m, find_index-sweep timeout now ms j)

pub Distinct-sweep :
    (timeout now : ℕ) (ms : List Member) → Distinct id_of ms → Distinct id_of (sweep timeout now ms)
Distinct-sweep timeout now [] d = tt
Distinct-sweep timeout now (m ∷ ms) d = (
  rw (node_id-after_sweep timeout now m, find_index-sweep timeout now ms m.node_id) (d.0),
  Distinct-sweep timeout now ms d.1,
)

pub length-sweep : (timeout now : ℕ) (ms : List Member) → length (sweep timeout now ms) ≡ length ms
length-sweep timeout now [] = refl
length-sweep timeout now (m ∷ ms) = ap suc (length-sweep timeout now ms)

pub lookup-sweep :
    (timeout now : ℕ) (ms : List Member) (j : NodeId)
    → lookup id_of (sweep timeout now ms) j
      ≡ elim (lookup id_of ms j) [ none ↦ none | some m ↦ some (after_sweep timeout now m) ]
lookup-sweep timeout now [] j = refl
lookup-sweep timeout now (m ∷ ms) j =
    rw (node_id-after_sweep timeout now m) (elim (Bool-cases (mem_eq m.node_id j)) [
      | inl here ↦ rw here refl
      | inr apart ↦ rw apart (lookup-sweep timeout now ms j)
    ])

-- Where nothing expires the sweep changes nothing.
pub sweep_none :
    (timeout now : ℕ) (ms : List Member)
    → count_if (is_expired timeout now) ms ≡ 0
    → sweep timeout now ms ≡ ms
sweep_none timeout now [] h = refl
sweep_none timeout now (m ∷ ms) h = elim (Bool-cases (is_expired timeout now m)) [
  | inl late ↦ absurd (ground (arith, h, late))
  | inr kept ↦ rw kept (ap (λ r. m ∷ r) (sweep_none timeout now ms (ground (arith, h, kept))))
]
