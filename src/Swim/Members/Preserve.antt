-- ===== src/Swim/Members/Preserve.antt =====
-- The member operations keep the invariant.
use libwake.Common.{
  ℕ, ◌≡◌, ◌<◌, refl, ◌∙◌, none, some, [], ◌∷◌, ◌++◌, true, false, leb, ◌==◌, not, length, set,
  mem_eq, mem_eq_comm, arith, Bool-cases, Option-cases, inl, inr, length-set, length-append,
  count_if-append, count_if-le,
}
use libwake.Common.Keyed.{
  Distinct-set, Distinct-append, find_index-set, find_index-append, lookup-find_index,
}
use libwake.Swim.Types.{NodeId, Member, Swim}
use libwake.Swim.State
use libwake.Swim.Queue.Laws.{enqueue-IsQueue}
use libwake.Swim.Members.{
  id_of, zero_member, find_member, is_self, member_at, change_member, append_member, new_member,
  add_member, remove_member, suspect_member,
}
use libwake.Swim.Invariant.{IsValid, AreTargets-nil}

-- An entry written over a member with the same identifier.
pub change_member-IsValid :
    (sw : Swim) (i : ℕ) (m : Member)
    → IsValid sw
    → find_member sw m.node_id ≡ some i
    → IsValid (change_member sw i m)
unfolding change_member
change_member-IsValid sw i m v found = record {
  small = v.small;
  fits = rw length-set v.fits;
  distinct = Distinct-set id_of sw.members i m found v.distinct;
  no_self = find_index-set id_of sw.members i m sw.self_id found ∙ v.no_self;
  counted = refl;
  queue = enqueue-IsQueue sw.config.update_queue_size sw.updates _ (omega arith) v.queue;
  targets = AreTargets-nil (set sw.members i m);
  healthy = v.healthy;
}

pub append_member-IsValid :
    (sw : Swim) (m : Member)
    → IsValid sw
    → mem_eq m.node_id sw.self_id ≡ false
    → find_member sw m.node_id ≡ none
    → State.is_probeable m.state ≡ true
    → length sw.members < sw.config.max_members
    → IsValid (append_member sw m)
unfolding append_member
append_member-IsValid sw m v apart new probeable room = record {
  small = v.small;
  fits = rw length-append (omega arith);
  distinct = Distinct-append id_of sw.members m new v.distinct;
  no_self = find_index-append id_of sw.members m sw.self_id apart ∙ v.no_self;
  counted =
      rw (count_if-append, probeable)
        (omega (
          arith,
          v.counted,
          v.fits,
          v.small,
          count_if-le (λ (x : Member). State.is_probeable x.state) sw.members,
        ));
  queue = enqueue-IsQueue sw.config.update_queue_size sw.updates _ (omega arith) v.queue;
  targets = AreTargets-nil (sw.members ++ m ∷ []);
  healthy = v.healthy;
}

-- `find_member` returns the index of an entry with the identifier that it was given.
pub find_member_same :
    (sw : Swim) (id : NodeId) (i : ℕ)
    → find_member sw id ≡ some i
    → find_member sw (id_of (member_at sw i)) ≡ some i
find_member_same sw id i found =
    rw ((lookup-find_index id_of sw.members id i zero_member found).1) found

pub add_member-IsValid :
    (sw : Swim) (id : NodeId) (addr port now : ℕ)
    → IsValid sw
    → IsValid (add_member sw id addr port now).1
unfolding add_member
add_member-IsValid sw id addr port now v = elim (Bool-cases (is_self sw id)) [
  | inl own ↦ rw own v
  | inr apart ↦ rw apart (elim (Option-cases (find_member sw id)) [
    | inr (i, old) ↦ rw old v
    | inl new ↦ rw new (elim (Bool-cases (leb sw.config.max_members (length sw.members))) [
      | inl full ↦ rw full v
      | inr room ↦ rw room (
          append_member-IsValid sw (new_member id addr port now) v
            (mem_eq_comm id sw.self_id ∙ apart) new refl (ground arith))
    ])
  ])
]

pub remove_member-IsValid :
    (sw : Swim) (id : NodeId) (now : ℕ) → IsValid sw → IsValid (remove_member sw id now).1
unfolding remove_member
remove_member-IsValid sw id now v = elim (Bool-cases (is_self sw id)) [
  | inl own ↦ rw own v
  | inr apart ↦ rw apart (elim (Option-cases (find_member sw id)) [
    | inl new ↦ rw new v
    | inr (i, old) ↦ rw old (change_member-IsValid sw i _ v (find_member_same sw id i old))
  ])
]

pub suspect_member-IsValid :
    (sw : Swim) (id : NodeId) (now : ℕ) → IsValid sw → IsValid (suspect_member sw id now).1
unfolding suspect_member
suspect_member-IsValid sw id now v = elim (Bool-cases (is_self sw id)) [
  | inl own ↦ rw own v
  | inr apart ↦ rw apart (elim (Option-cases (find_member sw id)) [
    | inl new ↦ rw new v
    | inr (i, old) ↦ rw old (elim (Bool-cases (not ((member_at sw i).state == State.alive))) [
      | inl late ↦ rw late v
      | inr fresh ↦ rw fresh (change_member-IsValid sw i _ v (find_member_same sw id i old))
    ])
  ])
]
