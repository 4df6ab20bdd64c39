-- ===== src/Plumtree/Repair.antt =====
-- The tick, with the tests of the code: its GRAFTs, slots, peers and cache.
use libwake.Common.{
  ℕ, zero, suc, ◌≡◌, ◌<◌, refl, sym, ◌∙◌, ap, Bool, true, none, some, List, [], ◌∷◌, ◌++◌,
  if◌then◌else◌, length, get_or, map, keep, count_if, arith, Bool-cases, inl, inr, ltb, mem_eq,
  mem_eq→eq,
}
use libwake.Common.Slots.{find_first}
use libwake.Plumtree.Types.{MsgId, Pending, CacheEntry, Plumtree}
use libwake.Plumtree.Pending.{zero_pending, awaits}
use libwake.Plumtree.Output.{Output, Hooks, when}
use libwake.Plumtree.Tick.{is_late, graft_loop, expire_cache, tick}
use libwake.Plumtree.Invariant.{OneEach}
use libwake.Plumtree.TickLaws.{
  settle, graft_for, promoted, settled-miss, slots-evict_loop, slots-graft_loop, number-graft_loop,
  sent-graft_loop, state-graft_loop, spoil,
}

-- The messages that a sweep of the table asks for.
abbrev pub overdue : Plumtree → ℕ → List Pending
overdue pt now = keep (is_late pt.config.lazy_timeout_ms now) pt.pending

pub length-keep {ℓ} : {A : Type ℓ} (p : A → Bool) (xs : List A) → count_if p xs ≡ length (keep p xs)
length-keep p [] = refl
length-keep p (x ∷ xs) = ground (arith, length-keep p xs)

-- The cache after the second loop; a lifetime of 0 switches it off.
abbrev pub fresh_only : Plumtree → ℕ → List CacheEntry
fresh_only pt now =
    if ltb 0 pt.config.cache_ttl_ms
    then map (spoil pt.config.cache_ttl_ms now) pt.cache
    else pt.cache

expire-frame :
    (pt : Plumtree) (now : ℕ)
    → let after = expire_cache pt now in
      (after.peers ≡ pt.peers) × (after.pending ≡ pt.pending) × (after.cache ≡ fresh_only pt now)
unfolding expire_cache
expire-frame pt now = elim (Bool-cases (ltb 0 pt.config.cache_ttl_ms)) [
  | inl on ↦ rw on (
    refl,
    refl,
    slots-evict_loop pt.config.cache_ttl_ms now pt.cache pt.cache_count pt.cache_evictions,
  )
  | inr off ↦ rw off (refl, refl, refl)
]

-- One sweep: as many GRAFTs as slots are overdue, one for each, in the order of the slots, to the node
-- that announced the message, if there is a send callback. These slots are idle afterwards, the announcing
-- peers are eager, and the cache keeps what is younger than its lifetime.
pub tick-sweeps :
    (pt : Plumtree) (hooks : Hooks) (now : ℕ)
    → let timeout = pt.config.lazy_timeout_ms in
      let r = tick pt hooks now in
      (r.0 ≡ length (overdue pt now))
      × (r.2 ≡ when hooks.can_send (map graft_for (overdue pt now)))
      × (r.1.pending ≡ map (settle timeout now) pt.pending)
      × (r.1.peers ≡ promoted timeout now pt.pending pt.peers)
      × (r.1.cache ≡ fresh_only pt now)
unfolding tick
tick-sweeps pt hooks now =
    let timeout = pt.config.lazy_timeout_ms in
    let swept = graft_loop timeout now hooks pt.pending pt in
    let same = state-graft_loop timeout now hooks pt.pending pt in
    let frame = expire-frame (record swept.1 { pending = swept.0 }) now in
    (
      number-graft_loop timeout now hooks pt.pending pt
          ∙ length-keep (is_late timeout now) pt.pending,
      sent-graft_loop timeout now hooks pt.pending pt,
      frame.1 ∙ slots-graft_loop timeout now hooks pt.pending pt,
      frame.0 ∙ ap (λ (q : Plumtree). q.peers) same,
      frame.2 ∙ ap (λ (q : Plumtree). fresh_only q now) same,
    )

-- An overdue slot is among those that are asked for.
pub asked_at :
    (late : Pending → Bool) (ps : List Pending) (i : ℕ)
    → i < length ps
    → late (get_or ps i zero_pending) ≡ true
    → (before after : List Output) × (map graft_for (keep late ps)
        ≡ before ++ graft_for (get_or ps i zero_pending) ∷ after)
asked_at late [] i l h = absurd (omega (arith, l))
asked_at late (p ∷ ps) zero l h = ([], map graft_for (keep late ps), rw h refl)
asked_at late (p ∷ ps) (suc i) l h =
    let (before, after, e) = asked_at late ps i (omega (arith, l)) h in
    elim (Bool-cases (late p)) [
      | inl due ↦
          (graft_for p ∷ before, after, rw due (ap (λ (o : List Output). graft_for p ∷ o) e))
      | inr early ↦ (before, after, rw early e)
    ]

-- The one slot that awaits a message is overdue: none awaits it after the sweep.
pub settled-none :
    (timeout now : ℕ) (ps : List Pending) (id : MsgId) (i : ℕ)
    → OneEach ps
    → find_first (awaits id) ps ≡ some i
    → is_late timeout now (get_or ps i zero_pending) ≡ true
    → find_first (awaits id) (map (settle timeout now) ps) ≡ none
settled-none timeout now [] id i o f h = ground (arith, f)
settled-none timeout now (p ∷ ps) id zero (n, o) f h =
    let active : p.active ≡ true = ground (arith, f) in
    let here : mem_eq p.msg_id id ≡ true = ground (arith, f) in
    let rest : find_first (awaits id) ps ≡ none =
      ap (λ (m : MsgId). find_first (awaits m) ps) (sym (mem_eq→eq p.msg_id id here)) ∙ n active in
    rw h (
      ap (λ o. elim o [ none ↦ none | some k ↦ some (suc k) ])
        (settled-miss timeout now ps id rest))
settled-none timeout now (p ∷ ps) id (suc i) (n, o) f h =
    ground (arith, settled-none timeout now ps id i o)
