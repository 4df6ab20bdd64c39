-- ===== src/Swim/Calls.antt =====
-- The calls that a host makes, in any order, as a transition system.
pub mod Rounds
use libwake.Common.{
  ℕ, Bool, true, false, not, ◌||◌, ◌≡◌, refl, Option, none, some, List, [], ◌∷◌, arith, Bool-cases,
  inl, inr, ◌==◌, length, take,
}
use libwake.Swim.Types.{NodeId, Member, Update, Swim, Result}
use libwake.Swim.Members.{add_member, remove_member, suspect_member}
use libwake.Swim.Members.Preserve.{
  add_member-IsValid, remove_member-IsValid, suspect_member-IsValid,
}
use libwake.Swim.Gossip.{apply_update}
use libwake.Swim.Gossip.Preserve.{apply_update-IsValid}
use libwake.Swim.Probe.{next_probe, select_delegates, delegates_from}
use libwake.Swim.Probe.Round.{next_probe-IsValid}
use libwake.Swim.Suspicion.{Delta, report_health, check_suspects, reap}
use libwake.Swim.Suspicion.Preserve.{report_health-IsValid, check_suspects-IsValid, reap-IsValid}
use libwake.Swim.Dissemination.{get_updates}
use libwake.Swim.Dissemination.Batch.{get_updates-IsValid}
use libwake.Swim.Lifecycle.{reset}
use libwake.Swim.Lifecycle.Preserve.{reset-IsValid}
use libwake.Swim.Api
use libwake.Swim.Api.{Handle}
use libwake.Swim.Invariant.{IsValid}

-- A handle that is not null holds a valid state.
abbrev pub IsSound : Handle → Type 0
IsSound none = Unit
IsSound (some sw) = IsValid sw

-- Every call that changes a state, with any arguments, null ones included.
pub data Step : Handle → Handle → Type 0 where
  add :
      (h : Handle) (id : Option NodeId) (addr port now : ℕ)
      → Step h (Api.add_member h id addr port now).1
  remove : (h : Handle) (id : Option NodeId) (now : ℕ) → Step h (Api.remove_member h id now).1
  accuse : (h : Handle) (id : Option NodeId) (now : ℕ) → Step h (Api.suspect_member h id now).1
  hear : (h : Handle) (u : Option Update) (now : ℕ) → Step h (Api.apply_update h u now).1
  probe : (h : Handle) → Step h (Api.next_probe h).1
  delegate :
      (h : Handle) (x : Option NodeId) (has_out : Bool) (n : ℕ)
      → Step h (Api.select_delegates h x has_out n).1
  judge : (h : Handle) (d : Delta) → Step h (Api.report_health h d)
  expire : (h : Handle) (now : ℕ) → Step h (Api.check_suspects h now).1
  sweep : (h : Handle) (now retention : ℕ) → Step h (Api.reap h now retention).1
  gossip : (h : Handle) (has_out : Bool) (n : ℕ) → Step h (Api.get_updates h has_out n).1
  restart : (h : Handle) → Step h (Api.reset h)

pub data Reach (start : Handle) : Handle → Type 0 where
  here : Reach start start
  next : {s t : Handle} → Reach start s → Step s t → Reach start t

select_delegates-IsValid :
    (sw : Swim) (x : Option NodeId) (n : ℕ) → IsValid sw → IsValid (select_delegates sw x n).1
unfolding select_delegates
select_delegates-IsValid sw x n v =
    elim (Bool-cases (length (delegates_from sw x 0 (take 512 sw.members)) == 0)) [
      | inl nobody ↦ rw nobody v
      | inr somebody ↦ rw somebody (record {
        small = v.small;
        fits = v.fits;
        distinct = v.distinct;
        no_self = v.no_self;
        counted = v.counted;
        queue = v.queue;
        targets = v.targets;
        healthy = v.healthy;
      })
    ]

pub Step-IsSound : {s t : Handle} → Step s t → IsSound s → IsSound t
unfolding Api.add_member Api.remove_member Api.suspect_member Api.apply_update Api.next_probe
    Api.select_delegates Api.report_health Api.check_suspects Api.reap Api.get_updates Api.reset
Step-IsSound (add none id addr port now) v = tt
Step-IsSound (add (some sw) none addr port now) v = v
Step-IsSound (add (some sw) (some id) addr port now) v = add_member-IsValid sw id addr port now v
Step-IsSound (remove none id now) v = tt
Step-IsSound (remove (some sw) none now) v = v
Step-IsSound (remove (some sw) (some id) now) v = remove_member-IsValid sw id now v
Step-IsSound (accuse none id now) v = tt
Step-IsSound (accuse (some sw) none now) v = v
Step-IsSound (accuse (some sw) (some id) now) v = suspect_member-IsValid sw id now v
Step-IsSound (hear none u now) v = tt
Step-IsSound (hear (some sw) none now) v = v
Step-IsSound (hear (some sw) (some u) now) v = apply_update-IsValid sw u now v
Step-IsSound (probe none) v = tt
Step-IsSound (probe (some sw)) v = next_probe-IsValid sw v
Step-IsSound (delegate none x has_out n) v = tt
Step-IsSound (delegate (some sw) x has_out n) v = elim (Bool-cases (not has_out || n == 0)) [
  | inl idle ↦ rw idle v
  | inr busy ↦ rw busy (select_delegates-IsValid sw x n v)
]
Step-IsSound (judge none d) v = tt
Step-IsSound (judge (some sw) d) v = report_health-IsValid sw d v
Step-IsSound (expire none now) v = tt
Step-IsSound (expire (some sw) now) v = check_suspects-IsValid sw now v
Step-IsSound (sweep none now retention) v = tt
Step-IsSound (sweep (some sw) now retention) v = reap-IsValid sw now retention v
Step-IsSound (gossip none has_out n) v = tt
Step-IsSound (gossip (some sw) true n) v = get_updates-IsValid sw n v
Step-IsSound (gossip (some sw) false n) v = v
Step-IsSound (restart none) v = tt
Step-IsSound (restart (some sw)) v = reset-IsValid sw v

-- Whatever calls a host makes, in whatever order and with whatever arguments, null ones included,
-- a valid state stays valid.
pub Reach-IsSound : {s t : Handle} → IsSound s → Reach s t → IsSound t
Reach-IsSound v here = v
Reach-IsSound v (next r st) = Step-IsSound st (Reach-IsSound v r)
