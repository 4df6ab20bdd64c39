-- ===== src/Swim/Suspicion/View.antt =====
-- What expiry and reaping do to what a state says of a node.
use libwake.Common.{
  ℕ, zero, suc, ◌+◌, ◌^◌, ◌≡◌, ◌≤◌, ◌<◌, refl, ◌∙◌, ap, Option, none, some, Bool, false, not, ◌&&◌,
  ◌||◌, if◌then◌else◌, leb, ◌==◌, arith,
}
use libwake.Common.Keyed.{lookup, lookup-keep}
use libwake.Swim.Types.{NodeId, Member, Swim}
use libwake.Swim.State
use libwake.Swim.Members.{id_of}
use libwake.Swim.Invariant.{IsValid}
use libwake.Swim.Suspicion.{
  is_expired, buried, suspect_timeout, check_suspects, recount_if, is_reapable, reap,
}
use libwake.Swim.Suspicion.Expiry.{after_sweep, expire_loop-sweep, lookup-sweep}

abbrev swept : ℕ → ℕ → Option Member → Option Member
swept timeout now none = none
swept timeout now (some m) = some (after_sweep timeout now m)

members-recount_if : (n : ℕ) (sw : Swim) → (recount_if n sw).members ≡ sw.members
unfolding recount_if
members-recount_if zero sw = refl
members-recount_if (suc n) sw = refl

lookup-check_suspects :
    (sw : Swim) (now : ℕ) (j : NodeId)
    → lookup id_of (check_suspects sw now).1.members j
      ≡ swept (suspect_timeout sw) now (lookup id_of sw.members j)
unfolding check_suspects
lookup-check_suspects sw now j =
    let t = suspect_timeout sw in
    rw (members-recount_if, (expire_loop-sweep t now sw.members sw).0)
      (lookup-sweep t now sw.members j)

-- Has this member been suspect for the whole timeout? A moment of zero counts as none.
abbrev pub is_overdue : ℕ → ℕ → Member → Bool
is_overdue timeout now m =
    m.state == State.suspect && (not (m.suspect_ms == 0) && leb (m.suspect_ms + timeout) now)

expired-overdue :
    (timeout now : ℕ) (m : Member)
    → now < 2 ^ 64
    → m.suspect_ms ≤ now
    → is_expired timeout now m ≡ is_overdue timeout now m
unfolding is_expired
expired-overdue timeout now m hn past = ground arith

-- At a time of 64 bits not before the suspicion of a member, a sweep declares it dead exactly
-- where it is suspect since a moment, not zero, that lies the timeout or more back; else it leaves
-- it as it was.
pub check_suspects-view :
    (sw : Swim) (now : ℕ) (j : NodeId) (m : Member)
    → now < 2 ^ 64
    → lookup id_of sw.members j ≡ some m
    → m.suspect_ms ≤ now
    → lookup id_of (check_suspects sw now).1.members j
      ≡ some (
          if is_overdue (suspect_timeout sw) now m
          then record m { state = State.dead; last_change_ms = now; suspect_ms = 0 }
          else m)
unfolding buried
check_suspects-view sw now j m hn held past =
    let t = suspect_timeout sw in
    let same = expired-overdue t now m hn past in
    lookup-check_suspects sw now j
    ∙ rw held (ap some (ap (λ (b : Bool). if b then buried now m else m) same))

-- Has this member been in a terminal state for the retention time?
abbrev pub is_forgotten : ℕ → ℕ → Member → Bool
is_forgotten now retention m =
    (m.state == State.dead || m.state == State.left) && leb (m.last_change_ms + retention) now

-- In a valid state, at a time of 64 bits not before the last change of a member, reaping removes
-- it exactly where it has been dead or gone for the retention time or more; else it leaves it as
-- it was.
pub reap-view :
    (sw : Swim) (now retention : ℕ) (j : NodeId) (m : Member)
    → IsValid sw
    → now < 2 ^ 64
    → lookup id_of sw.members j ≡ some m
    → m.last_change_ms ≤ now
    → lookup id_of (reap sw now retention).1.members j
      ≡ (if is_forgotten now retention m then none else some m)
unfolding reap is_reapable
reap-view sw now retention j m v hn held past =
    let stays : Member → Bool = λ x. not (is_reapable now retention x) in
    let read = lookup-keep id_of stays sw.members j v.distinct in
    rw members-recount_if (read ∙ rw held (ground arith))

-- An entry in no terminal state survives every reaping.
pub lookup-reap :
    (sw : Swim) (now retention : ℕ) (j : NodeId) (m : Member)
    → IsValid sw
    → lookup id_of sw.members j ≡ some m
    → State.is_terminal m.state ≡ false
    → lookup id_of (reap sw now retention).1.members j ≡ some m
unfolding reap is_reapable
lookup-reap sw now retention j m v held lively =
    let stays : Member → Bool = λ x. not (is_reapable now retention x) in
    let read = lookup-keep id_of stays sw.members j v.distinct in
    rw members-recount_if (read ∙ rw held (ground arith))
