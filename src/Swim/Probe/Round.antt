-- ===== src/Swim/Probe/Round.antt =====
-- `wake_swim_next_probe`: one call, and a whole round.
use libwake.Common.{
  suc, ◌-◌, ◌≡◌, ◌≢◌, ◌<◌, refl, some, none, Bool, false, leb, ◌==◌, ◌||◌, if◌then◌else◌, length,
  arith, Bool-cases, inl, inr,
}
use native.Mathlib.Decide.{ℕ_discrete}
use libwake.Swim.Types.{Swim}
use libwake.Swim.Members.{member_at}
use libwake.Swim.Invariant.{IsValid, AreTargets}
use libwake.Swim.Probe.{rebuild_probe_order, advance, current, scan, scan_order, next_probe}
use libwake.Swim.Probe.Shuffle.{rebuild-occurrences, rebuild-AreTargets}

-- Is the order used up, or was it forgotten?
abbrev pub needs_round : Swim → Bool
needs_round sw = length sw.probe_order == 0 || leb (length sw.probe_order) sw.probe_index

-- The state whose order the call reads.
abbrev pub in_round : Swim → Swim
in_round sw = if needs_round sw then rebuild_probe_order sw else sw

-- With entries left, and all of them targets, the loop stops at the first.
scan_order-current :
    (sw : Swim)
    → AreTargets sw.members sw.probe_order
    → sw.probe_index < length sw.probe_order
    → scan_order sw ≡ (some (member_at sw (current sw)), advance sw)
unfolding scan_order
scan_order-current sw t h =
    let left : length sw.probe_order - sw.probe_index
        ≡ suc (length sw.probe_order - sw.probe_index - 1) =
      omega arith in
    rw left (rw (t sw.probe_index h, scan) refl)

pub rebuild-IsValid : (sw : Swim) → IsValid sw → IsValid (rebuild_probe_order sw)
unfolding rebuild_probe_order
rebuild-IsValid sw v = record {
  small = v.small;
  fits = v.fits;
  distinct = v.distinct;
  no_self = v.no_self;
  counted = v.counted;
  queue = v.queue;
  targets = rebuild-AreTargets sw;
  healthy = v.healthy;
}

pub advance-IsValid : (sw : Swim) → IsValid sw → IsValid (advance sw)
unfolding advance
advance-IsValid sw v = record {
  small = v.small;
  fits = v.fits;
  distinct = v.distinct;
  no_self = v.no_self;
  counted = v.counted;
  queue = v.queue;
  targets = v.targets;
  healthy = v.healthy;
}

module _ (sw : Swim) where
  rebuilt_frame :
      let r = rebuild_probe_order sw in
      (r.probe_index ≡ 0) × (r.members ≡ sw.members) × (r.rounds_completed ≡ sw.rounds_completed)
  unfolding rebuild_probe_order
  rebuilt_frame = (refl, refl, refl)

  -- A rebuilt order is read at its start.
  scan_rebuilt :
      let r = rebuild_probe_order sw in
      r.probe_index < length r.probe_order
      → scan_order r ≡ (some (member_at sw (current r)), advance r)
  unfolding rebuild_probe_order
  scan_rebuilt h = scan_order-current (rebuild_probe_order sw) (rebuild-AreTargets sw) h

  module _ (v : IsValid sw) where
    -- With a probeable member, a round has an entry to read, and it is a target.
    in_round_ready :
        sw.alive_count ≢ 0
        → ((in_round sw).probe_index < length (in_round sw).probe_order)
          × AreTargets sw.members (in_round sw).probe_order
    in_round_ready some_alive = elim (Bool-cases (needs_round sw)) [
      | inr going ↦ rw going (ground (arith, going), v.targets)
      | inl over ↦ rw over (
        omega (arith, (rebuild-occurrences sw 0).1, rebuilt_frame.0, v.counted),
        rebuild-AreTargets sw,
      )
    ]

    -- With a probeable member, a valid state probes the current entry of its order, which is
    -- rebuilt first where it is used up or forgotten, and changes nothing else.
    pub next_probe-current :
        sw.alive_count ≢ 0
        → next_probe sw ≡ (some (member_at sw (current (in_round sw))), advance (in_round sw))
    unfolding next_probe
    next_probe-current some_alive =
        let ready = in_round_ready some_alive in
        let alive : (sw.alive_count == 0) ≡ false = ground arith in
        elim (Bool-cases (needs_round sw)) [
          | inr going ↦
              let ready' = rw going at ready in
              rw (alive, going) (scan_order-current sw ready'.1 ready'.0)
          | inl over ↦
              let r = rebuild_probe_order sw in
              let ready' = rw over at ready in
              let nonempty : (length r.probe_order == 0) ≡ false = ground (arith, ready'.0) in
              let unread : leb (length r.probe_order) r.probe_index ≡ false =
                ground (arith, ready'.0) in
              rw (alive, over, nonempty, unread) (scan_rebuilt ready'.0)
        ]

    -- With no probeable member there is nothing to probe, and nothing changes.
    pub next_probe-none : sw.alive_count ≡ 0 → next_probe sw ≡ (none, sw)
    unfolding next_probe
    next_probe-none e = ground arith

    -- A round counter never moves: a valid state has no stale entry.
    pub next_probe-rounds : (next_probe sw).1.rounds_completed ≡ sw.rounds_completed
    unfolding advance
    next_probe-rounds = elim (ℕ_discrete sw.alive_count 0) [
      | yes e ↦ rw (next_probe-none e)
      | no some_alive ↦ rw (next_probe-current some_alive) (elim (Bool-cases (needs_round sw)) [
        | inl over ↦ rw over (rebuilt_frame.2)
        | inr going ↦ rw going
      ])
    ]

    pub next_probe-IsValid : IsValid (next_probe sw).1
    next_probe-IsValid = elim (ℕ_discrete sw.alive_count 0) [
      | yes e ↦ rw (next_probe-none e) v
      | no some_alive ↦ rw (next_probe-current some_alive) (elim (Bool-cases (needs_round sw)) [
        | inl over ↦ rw over (advance-IsValid _ (rebuild-IsValid sw v))
        | inr going ↦ rw going (advance-IsValid sw v)
      ])
    ]
