-- ===== src/Swim/Dissemination/Limit.antt =====
-- The queue after `wake_swim_get_updates`, with the limit of sendings.
use libwake.Common.{
  ℕ, zero, suc, ◌+◌, ◌-◌, ◌*◌, ◌^◌, ◌≡◌, ◌≢◌, ◌≤◌, ◌<◌, refl, sym, ◌∙◌, ap, Option, none, some,
  List, [], ◌∷◌, leb, ltb, if◌then◌else◌, max, mem_eq, ◌==◌, false, count_if-le, arith, Bool-cases,
  Option-cases, inl, inr, u16, inc16,
}
use libwake.Common.Keyed.{find_index, lookup, find_index_of_lookup, lookup-eq-none}
use native.Mathlib.Nat.{pow-suc}
use libwake.Swim.Types.{NodeId, Member, Update, Swim}
use libwake.Swim.Queue.{node_of}
use libwake.Swim.Queue.Laws.{IsModest}
use libwake.Swim.Invariant.{IsValid}
use libwake.Swim.Suspicion.{ilog2, at_least_two}
use libwake.Swim.Suspicion.Timeout.{ilog2-bounds, some_rounds_of}
use libwake.Swim.State
use libwake.Swim.Members.{count_alive}
use libwake.Swim.Dissemination.{prune_limit, sent_once, get_updates}
use libwake.Swim.Dissemination.Selection.{sent_if}
use libwake.Swim.Dissemination.Batch.{survivor, survivors, lookup-get_updates}

-- An update that was sent and one that was not, with the number of its sendings.
abbrev pub sendings : List Update → Update → ℕ
sendings out u = elim (lookup node_of out u.node_id) [
  | none ↦ u.piggyback_count
  | some sent ↦ u.piggyback_count + 1
]

-- What the queue holds for a node that it held `before` for.
abbrev pub still_queued : ℕ → List Update → Option Update → Option Update
still_queued limit out none = none
still_queued limit out (some u) =
    if leb limit (sendings out u)
    then none
    else some (record u { piggyback_count = sendings out u })

exp_grows : (k : ℕ) → 2 ^ 17 ≤ 2 ^ (17 + k)
exp_grows zero = omega arith
exp_grows (suc k) =
    let same : 17 + suc k ≡ suc (17 + k) = omega arith in
    rw (same, pow-suc) (omega (arith, exp_grows k))

small_log : (l n : ℕ) → 2 ^ l ≤ n → n < 2 ^ 17 → l < 17
small_log l n h small = elim (Bool-cases (ltb l 17)) [
  | inl below ↦ ground (arith, below)
  | inr above ↦
      let over : 17 ≤ l = ground (arith, above) in
      let same : 17 + (l - 17) ≡ l = omega (arith, over) in
      let big : 2 ^ 17 ≤ 2 ^ l = rw same at (exp_grows (l - 17)) in
      absurd (omega (arith, h, small, big))
]

modest-lookup :
    (us : List Update) (j : NodeId) (u : Update)
    → IsModest us
    → lookup node_of us j ≡ some u
    → u.piggyback_count < 65535
modest-lookup [] j u m h = absurd (cc h)
modest-lookup (x ∷ us) j u (here, m) h = elim (Bool-cases (mem_eq x.node_id j)) [
  | inr later ↦ modest-lookup us j u m (rw later at h)
  | inl found ↦
      let same : some x ≡ some u = rw found at h in
      let count : x.piggyback_count ≡ u.piggyback_count =
        ap (λ (o : Option Update). elim o [ none ↦ 0 | some y ↦ y.piggyback_count ]) same in
      omega (arith, here, count)
]

sent_if-sendings :
    (out : List Update) (u : Update)
    → u.piggyback_count < 65535
    → sent_if out u ≡ record u { piggyback_count = sendings out u }
unfolding sent_once
sent_if-sendings out u modest =
    let more : inc16 u.piggyback_count ≡ u.piggyback_count + 1 = omega (arith, modest) in
    elim (Option-cases (find_index node_of out u.node_id)) [
      | inl unsent ↦
          let absent = lookup-eq-none node_of out u.node_id unsent in
          let same : sent_if out u ≡ u = rw (unsent, sent_if) refl in
          let number : sendings out u ≡ u.piggyback_count = rw (absent, sendings) refl in
          same ∙ ap (λ (n : ℕ). record u { piggyback_count = n }) (sym number)
      | inr (a, found) ↦ elim (Option-cases (lookup node_of out u.node_id)) [
        | inl absent ↦ absurd (cc (found, find_index_of_lookup node_of out u.node_id absent))
        | inr (s, sent) ↦
            let same : sent_if out u ≡ sent_once u = rw (found, sent_if) refl in
            let number : sendings out u ≡ u.piggyback_count + 1 = rw (sent, sendings) refl in
            same ∙ ap (λ (n : ℕ). record u { piggyback_count = n }) (more ∙ sym number)
      ]
    ]

survivors-still_queued :
    (limit : ℕ) (out : List Update) (u : Update)
    → limit < 2 ^ 16
    → u.piggyback_count < 65535
    → survivor limit out u ≡ still_queued limit out (some u)
survivors-still_queued limit out u small modest =
    let cut : u16 limit ≡ limit = omega (arith, small) in
    ap (λ (s : Update). if leb (u16 limit) s.piggyback_count then none else some s)
      (sent_if-sendings out u modest)
    ∙ ap
        (λ (k : ℕ).
          if leb k (sendings out u)
          then none
          else some (record u { piggyback_count = sendings out u }))
        cut

still_queued_of :
    (limit : ℕ) (us out : List Update) (j : NodeId)
    → limit < 2 ^ 16
    → IsModest us
    → survivors limit out (lookup node_of us j) ≡ still_queued limit out (lookup node_of us j)
still_queued_of limit us out j small m = elim (Option-cases (lookup node_of us j)) [
  | inl absent ↦ rw absent refl
  | inr (u, held) ↦ rw held (survivors-still_queued limit out u small (modest-lookup us j u m held))
]

at_least_two-max : (a : ℕ) → at_least_two a ≡ max 2 a
at_least_two-max a = ground arith

no_floor : (x : ℕ) → (x == 0) ≡ false → (if ltb (3 * x) 3 then 3 else 3 * x) ≡ 3 * x
no_floor x h = ground (arith, h)

-- Three times the logarithm, rounded down.
record IsTripleLog (n limit : ℕ) : Type 0 where
  log : ℕ
  low : 2 ^ log ≤ n
  high : n < 2 ^ log * 2
  limit_is : limit ≡ 3 * log
  short : limit < 2 ^ 16

prune_limit-IsTripleLog : (a : ℕ) → a < 2 ^ 16 → IsTripleLog (max 2 a) (prune_limit a)
unfolding prune_limit
prune_limit-IsTripleLog a small =
    let n = at_least_two a in
    let number = at_least_two-max a in
    let two : 2 ≤ n = omega (arith, number) in
    let bounds = ilog2-bounds n (omega (arith, two)) in
    let l : ℕ = ilog2 n in
    let below : n < 2 ^ 17 = omega (arith, number, small) in
    let short : l < 17 = small_log l n bounds.0 below in
    let limit : prune_limit a ≡ 3 * l = no_floor l (some_rounds_of n two) in
    record {
      log = l;
      low = omega (arith, bounds.0, number);
      high = omega (arith, bounds.1, number);
      limit_is = limit;
      short = omega (arith, limit, short);
    }

-- After a call for at least one update from a valid state, there is a logarithm of the number of alive
-- and suspect members, two at least, rounded down, such that the queue holds for each node what it held
-- before, with its count raised by one if the batch holds an update of the node, and nothing if the
-- count has reached three times that logarithm.
pub get_updates-queue :
    (sw : Swim) (max_out : ℕ)
    → IsValid sw
    → max_out ≢ 0
    → let r = get_updates sw max_out in
      let n = max 2 (count_alive sw.members) in
      (l : ℕ) × (2 ^ l ≤ n)
      × (n < 2 ^ l * 2)
      × ((j : NodeId)
          → lookup node_of r.1.updates j ≡ still_queued (3 * l) r.0 (lookup node_of sw.updates j))
get_updates-queue sw max_out v some_asked =
    let few = count_if-le (λ (m : Member). State.is_probeable m.state) sw.members in
    let t =
      prune_limit-IsTripleLog sw.alive_count (omega (arith, v.counted, few, v.fits, v.small)) in
    let out = (get_updates sw max_out).0 in
    (
      t.log,
      omega (arith, t.low, v.counted),
      omega (arith, t.high, v.counted),
      λ j.
          lookup-get_updates sw max_out j v some_asked
          ∙ still_queued_of (prune_limit sw.alive_count) sw.updates out j t.short v.queue.modest
          ∙ ap (λ (k : ℕ). still_queued k out (lookup node_of sw.updates j)) t.limit_is,
    )
