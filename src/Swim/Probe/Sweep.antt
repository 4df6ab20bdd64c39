-- ===== src/Swim/Probe/Sweep.antt =====
-- A whole round of `wake_swim_next_probe`.
use libwake.Common.{
  ℕ, zero, suc, ◌+◌, ◌≡◌, ◌≢◌, ◌≤◌, refl, sym, ◌∙◌, ap, Option, some, List, [], ◌∷◌, true, false,
  length, arith, drop, take, map, take-drop, take-all, nil_of_length,
}
use native.Mathlib.Decide.{ℕ_discrete}
use libwake.Swim.Types.{Member, Swim}
use libwake.Swim.Members.{count_alive, member_at}
use libwake.Swim.Invariant.{IsValid}
use libwake.Swim.Probe.{rebuild_probe_order, advance, current, next_probe}
use libwake.Swim.Probe.Shuffle.{rebuild-occurrences}
use libwake.Swim.Probe.Round.{needs_round, next_probe-current, rebuild-IsValid, advance-IsValid}

-- What `n` calls in a row return.
pub probes : ℕ → Swim → List (Option Member)
probes zero sw = []
probes (suc n) sw = (next_probe sw).0 ∷ probes n (next_probe sw).1

-- The members at the given indices, as pointers that are not NULL.
abbrev pub targets_of : Swim → List ℕ → List (Option Member)
targets_of sw = map (λ i. some (member_at sw i))

-- Calls within a round walk through the order.
probes_going :
    (n : ℕ) (sw : Swim)
    → IsValid sw
    → sw.alive_count ≢ 0
    → sw.probe_index + n ≤ length sw.probe_order
    → probes n sw ≡ targets_of sw (take n (drop sw.probe_index sw.probe_order))
unfolding probes advance
probes_going zero sw v some_alive h = refl
probes_going (suc n) sw v some_alive h =
    let going : needs_round sw ≡ false = ground arith in
    let here = next_probe-current sw v some_alive in
    let ih = probes_going n (advance sw) (advance-IsValid sw v) some_alive (omega arith) in
    rw (here, going, take-drop sw.probe_order n sw.probe_index 0 (omega arith))
      (ap (λ r. some (member_at sw (current sw)) ∷ r) ih)

-- A call that opens a round is a call on the rebuilt order.
next_probe-rebuilt :
    (sw : Swim)
    → IsValid sw
    → sw.alive_count ≢ 0
    → needs_round sw ≡ true
    → next_probe sw ≡ next_probe (rebuild_probe_order sw)
unfolding rebuild_probe_order
next_probe-rebuilt sw v some_alive over =
    let r = rebuild_probe_order sw in
    let ready : length r.probe_order ≡ count_alive sw.members = (rebuild-occurrences sw 0).1 in
    let going : needs_round r ≡ false = ground (arith, ready, v.counted) in
    let there = next_probe-current r (rebuild-IsValid sw v) some_alive in
    rw (next_probe-current sw v some_alive, over, there, going) refl

probes-rebuilt :
    (n : ℕ) (sw : Swim)
    → IsValid sw
    → sw.alive_count ≢ 0
    → needs_round sw ≡ true
    → probes n sw ≡ probes n (rebuild_probe_order sw)
unfolding probes
probes-rebuilt zero sw v some_alive over = refl
probes-rebuilt (suc n) sw v some_alive over = rw (next_probe-rebuilt sw v some_alive over)

rebuilt_start : (sw : Swim) → (rebuild_probe_order sw).probe_index ≡ 0
unfolding rebuild_probe_order
rebuilt_start sw = refl

rebuilt_same :
    (sw : Swim) (order : List ℕ)
    → (targets_of (rebuild_probe_order sw) order ≡ targets_of sw order)
      × ((rebuild_probe_order sw).alive_count ≡ sw.alive_count)
unfolding rebuild_probe_order
rebuilt_same sw order = (refl, refl)

-- In a valid state whose order is used up or forgotten, as many calls as there are alive or
-- suspect members return the members of the rebuilt order, in its order.
pub round-probes :
    (sw : Swim)
    → IsValid sw
    → needs_round sw ≡ true
    → probes sw.alive_count sw ≡ targets_of sw (rebuild_probe_order sw).probe_order
unfolding probes
round-probes sw v over =
    let r = rebuild_probe_order sw in
    let size : length r.probe_order ≡ sw.alive_count =
      (rebuild-occurrences sw 0).1 ∙ sym v.counted in
    elim (ℕ_discrete sw.alive_count 0) [
      | yes e ↦ rw (nil_of_length r.probe_order (size ∙ e), e)
      | no some_alive ↦
          let some_alive' : r.alive_count ≢ 0 = rw ((rebuilt_same sw []).1) some_alive in
          let walk =
            probes_going sw.alive_count r (rebuild-IsValid sw v) some_alive'
              (omega (arith, rebuilt_start sw, size)) in
          let whole : take sw.alive_count (drop r.probe_index r.probe_order) ≡ r.probe_order =
            rw (rebuilt_start sw)
              (ap (λ n. take n r.probe_order) (sym size) ∙ take-all r.probe_order) in
          probes-rebuilt sw.alive_count sw v some_alive over
          ∙ (walk ∙ (ap (targets_of r) whole ∙ (rebuilt_same sw r.probe_order).0))
    ]
