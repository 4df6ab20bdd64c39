-- ===== src/Swim/Suspicion/Preserve.antt =====
-- Expiry, reaping and the health score keep the invariant.
use libwake.Common.{
  ℕ, zero, suc, ◌^◌, none, ◌≡◌, ◌≤◌, ◌<◌, refl, sym, ◌∙◌, List, [], ◌∷◌, Bool, not, length, arith,
  count_if, keep, length-keep-le,
}
use libwake.Common.Keyed.{find_index, Distinct, Distinct-keep, find_index-keep}
use libwake.Swim.Types.{Member, Swim}
use libwake.Swim.Queue.Laws.{IsQueue}
use libwake.Swim.Members.{id_of, count_alive}
use libwake.Swim.Invariant.{IsValid, AreTargets, AreTargets-nil}
use libwake.Swim.Suspicion.{
  health_max, clamp_health, Delta, worse, better, expire_loop, suspect_timeout, check_suspects,
  recount_if, is_reapable, reap, report_health,
}
use libwake.Swim.Suspicion.Expiry.{
  expire_loop-Frame, expire_loop-sweep, find_index-sweep, Distinct-sweep, length-sweep, sweep_none,
}

-- All that the invariant asks, but for the number of probeable members and the probe order.
record Recountable (sw : Swim) : Type 0 where
  small : sw.config.max_members < 2 ^ 16
  fits : length sw.members ≤ sw.config.max_members
  distinct : Distinct id_of sw.members
  no_self : find_index id_of sw.members sw.self_id ≡ none
  queue : IsQueue sw.config.update_queue_size sw.updates
  healthy : sw.health_score ≤ health_max

-- A recount repairs both; with nothing changed they must hold already.
recount_if-IsValid :
    (n : ℕ) (sw : Swim)
    → Recountable sw
    → (n ≡ 0 → (sw.alive_count ≡ count_alive sw.members) × AreTargets sw.members sw.probe_order)
    → IsValid (recount_if n sw)
unfolding recount_if
recount_if-IsValid zero sw r same = record {
  small = r.small;
  fits = r.fits;
  distinct = r.distinct;
  no_self = r.no_self;
  counted = (same refl).0;
  queue = r.queue;
  targets = (same refl).1;
  healthy = r.healthy;
}
recount_if-IsValid (suc n) sw r same = record {
  small = r.small;
  fits = r.fits;
  distinct = r.distinct;
  no_self = r.no_self;
  counted = refl;
  queue = r.queue;
  targets = AreTargets-nil sw.members;
  healthy = r.healthy;
}

pub check_suspects-IsValid : (sw : Swim) (now : ℕ) → IsValid sw → IsValid (check_suspects sw now).1
unfolding check_suspects
check_suspects-IsValid sw now v =
    let t = suspect_timeout sw in
    let looped = expire_loop t now sw.members sw in
    let frame = expire_loop-Frame t now sw.members sw v.queue in
    let swept = expire_loop-sweep t now sw.members sw in
    recount_if-IsValid looped.2 (record looped.1 { members = looped.0 })
      (record {
        small = rw (frame.config) (v.small);
        fits = rw (frame.config, swept.0, length-sweep t now sw.members) (v.fits);
        distinct = rw (swept.0) (Distinct-sweep t now sw.members v.distinct);
        no_self =
            rw (frame.self_id, swept.0, find_index-sweep t now sw.members sw.self_id) (v.no_self);
        queue = rw (frame.config) (frame.queue);
        healthy = rw (frame.health_score) (v.healthy);
      })
      λ none_expired.
        let same = sweep_none t now sw.members (sym swept.1 ∙ none_expired) in
        (
          rw (frame.alive_count, swept.0, same) (v.counted),
          rw (frame.probe_order, swept.0, same) (v.targets),
        )

keep_none :
    (now retention : ℕ) (ms : List Member)
    → count_if (is_reapable now retention) ms ≡ 0
    → keep (λ m. not (is_reapable now retention m)) ms ≡ ms
keep_none now retention [] h = refl
keep_none now retention (m ∷ ms) h = ground (arith, keep_none now retention ms)

pub reap-IsValid : (sw : Swim) (now retention : ℕ) → IsValid sw → IsValid (reap sw now retention).1
unfolding reap
reap-IsValid sw now retention v =
    let stays : Member → Bool = λ m. not (is_reapable now retention m) in
    let kept = keep stays sw.members in
    recount_if-IsValid (count_if (is_reapable now retention) sw.members)
      (record sw { members = kept })
      (record {
        small = v.small;
        fits = omega (arith, length-keep-le stays sw.members, v.fits);
        distinct = Distinct-keep id_of stays sw.members v.distinct;
        no_self = find_index-keep id_of stays sw.members sw.self_id v.no_self;
        queue = v.queue;
        healthy = v.healthy;
      })
      λ none_reaped.
        let same = keep_none now retention sw.members none_reaped in
        (rw same (v.counted), rw same (v.targets))

pub report_health-IsValid : (sw : Swim) (d : Delta) → IsValid sw → IsValid (report_health sw d)
unfolding report_health
report_health-IsValid sw d v = record {
  small = v.small;
  fits = v.fits;
  distinct = v.distinct;
  no_self = v.no_self;
  counted = v.counted;
  queue = v.queue;
  targets = v.targets;
  healthy = elim d as (λ d. clamp_health sw.health_score d ≤ health_max) [
    | worse n ↦ ground arith
    | better n ↦ ground arith
  ];
}
