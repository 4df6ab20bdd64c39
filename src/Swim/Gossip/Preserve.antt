-- ===== src/Swim/Gossip/Preserve.antt =====
-- `wake_swim_apply_update` keeps the invariant.
use libwake.Common.{
  ℕ, zero, suc, ◌≡◌, refl, sym, ◌∙◌, some, List, [], ◌∷◌, ◌==◌, ◌&&◌, ◌||◌, not, set, get_or, arith,
  Bool-cases, Option-cases, inl, inr, length-set,
}
use libwake.Common.Keyed.{Distinct-set, find_index-set}
use libwake.Swim.Types.{NodeId, Member, Update, Swim, Result}
use libwake.Swim.State
use libwake.Swim.State.{state_supersedes}
use libwake.Swim.Queue.{queue_update}
use libwake.Swim.Queue.Laws.{enqueue-IsQueue}
use libwake.Swim.Members.{id_of, zero_member, find_member, is_self, member_at, count_alive}
use libwake.Swim.Members.Preserve.{change_member-IsValid, add_member-IsValid, find_member_same}
use libwake.Swim.Probe.{is_target}
use libwake.Swim.Invariant.{IsValid}
use libwake.Swim.Gossip.{
  apply_self, set_incarnation, adopt, apply_unknown, updated, apply_known, apply_update,
}

pub queue_update-IsValid : (sw : Swim) (m : Member) → IsValid sw → IsValid (queue_update sw m)
unfolding queue_update
queue_update-IsValid sw m v = record {
  small = v.small;
  fits = v.fits;
  distinct = v.distinct;
  no_self = v.no_self;
  counted = v.counted;
  queue = enqueue-IsQueue sw.config.update_queue_size sw.updates _ (omega arith) v.queue;
  targets = v.targets;
  healthy = v.healthy;
}

apply_self-IsValid :
    (sw : Swim) (u : Update) (now : ℕ) → IsValid sw → IsValid (apply_self sw u now).1
unfolding apply_self
apply_self-IsValid sw u now v =
    elim (Bool-cases (u.state == State.suspect || u.state == State.dead)) [
      | inl accused ↦ rw accused (record {
        small = v.small;
        fits = v.fits;
        distinct = v.distinct;
        no_self = v.no_self;
        counted = v.counted;
        queue = enqueue-IsQueue sw.config.update_queue_size sw.updates _ (omega arith) v.queue;
        targets = v.targets;
        healthy = v.healthy;
      })
      | inr fine ↦ rw fine (record {
        small = v.small;
        fits = v.fits;
        distinct = v.distinct;
        no_self = v.no_self;
        counted = v.counted;
        queue = v.queue;
        targets = v.targets;
        healthy = v.healthy;
      })
    ]

-- A write that keeps the state of an entry keeps the targets and the number of probeable members.
is_target-set :
    (ms : List Member) (i : ℕ) (m : Member) (k : ℕ)
    → m.state ≡ (get_or ms i zero_member).state
    → is_target (set ms i m) k ≡ is_target ms k
is_target-set [] i m k e = refl
is_target-set (x ∷ ms) zero m zero e = rw e
is_target-set (x ∷ ms) zero m (suc k) e = refl
is_target-set (x ∷ ms) (suc i) m zero e = refl
is_target-set (x ∷ ms) (suc i) m (suc k) e = is_target-set ms i m k e

count_alive-set :
    (ms : List Member) (i : ℕ) (m : Member)
    → m.state ≡ (get_or ms i zero_member).state
    → count_alive (set ms i m) ≡ count_alive ms
count_alive-set [] i m e = refl
count_alive-set (x ∷ ms) zero m e = rw e
count_alive-set (x ∷ ms) (suc i) m e = ground (arith, count_alive-set ms i m)

set_incarnation-IsValid :
    (sw : Swim) (id : NodeId) (inc : ℕ) → IsValid sw → IsValid (set_incarnation sw id inc)
unfolding set_incarnation
set_incarnation-IsValid sw id inc v = elim (Option-cases (find_member sw id)) [
  | inl absent ↦ rw (absent, set_incarnation) v
  | inr (i, found) ↦
      rw (found, set_incarnation)
        (let m = record (member_at sw i) { incarnation = inc } in
          let same = find_member_same sw id i found in
          record {
            small = v.small;
            fits = rw length-set v.fits;
            distinct = Distinct-set id_of sw.members i m same v.distinct;
            no_self = find_index-set id_of sw.members i m sw.self_id same ∙ v.no_self;
            counted = v.counted ∙ sym (count_alive-set sw.members i m refl);
            queue = v.queue;
            targets = λ k h.
                is_target-set sw.members i m (get_or sw.probe_order k 0) refl ∙ v.targets k h;
            healthy = v.healthy;
          })
]

adopt-IsValid :
    (id : NodeId) (inc : ℕ) (r : Result × Swim) → IsValid r.1 → IsValid (adopt id inc r).1
unfolding adopt
adopt-IsValid id inc (Result.ok, sw) v = set_incarnation-IsValid sw id inc v
adopt-IsValid id inc (_, sw) v = v

apply_unknown-IsValid :
    (sw : Swim) (u : Update) (now : ℕ) → IsValid sw → IsValid (apply_unknown sw u now).1
unfolding apply_unknown
apply_unknown-IsValid sw u now v = elim (Bool-cases (u.state == State.alive)) [
  | inl live ↦ rw live (
      adopt-IsValid u.node_id u.incarnation _ (add_member-IsValid sw u.node_id u.addr u.port now v))
  | inr gone ↦ rw gone v
]

apply_known-IsValid :
    (sw : Swim) (i : ℕ) (u : Update) (now : ℕ)
    → IsValid sw
    → find_member sw u.node_id ≡ some i
    → IsValid (apply_known sw i u now).1
unfolding apply_known
apply_known-IsValid sw i u now v found =
    let m = member_at sw i in
    elim (Bool-cases (not (state_supersedes u.state u.incarnation m.state m.incarnation))) [
      | inr wins ↦
          rw wins
            (change_member-IsValid sw i (updated m u now) v (find_member_same sw u.node_id i found))
      | inl loses ↦
          rw loses (elim (Bool-cases (u.state == m.state && u.incarnation == m.incarnation)) [
            | inl same ↦ rw same v
            | inr older ↦ rw older v
          ])
    ]

pub apply_update-IsValid :
    (sw : Swim) (u : Update) (now : ℕ) → IsValid sw → IsValid (apply_update sw u now).1
unfolding apply_update
apply_update-IsValid sw u now v = elim (Bool-cases (is_self sw u.node_id)) [
  | inl own ↦ rw own (apply_self-IsValid sw u now v)
  | inr apart ↦ rw apart (elim (Option-cases (find_member sw u.node_id)) [
    | inl new ↦ rw new (apply_unknown-IsValid sw u now v)
    | inr (i, old) ↦ rw old (apply_known-IsValid sw i u now v old)
  ])
]
