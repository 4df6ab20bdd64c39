-- ===== src/Swim/Calls/Rounds.antt =====
-- The counter `rounds_completed` over any sequence of calls.
use libwake.Common.{
  ℕ, zero, suc, ◌≡◌, inl, inr, refl, ◌∙◌, Option, none, some, arith, Bool-cases, Option-cases, ◌==◌,
  true, false, not, ◌||◌,
}
use libwake.Swim.Types.{NodeId, Update, Swim, Result}
use libwake.Swim.Members.{find_member, is_self, add_member, remove_member, suspect_member}
use libwake.Swim.Gossip.{apply_update, adopt, set_incarnation}
use libwake.Swim.Probe.{select_delegates}
use libwake.Swim.Probe.Round.{next_probe-rounds}
use libwake.Swim.Suspicion.{report_health, check_suspects, reap, recount_if, suspect_timeout}
use libwake.Swim.Suspicion.Expiry.{expire_loop-Frame}
use libwake.Swim.Dissemination.{get_updates}
use libwake.Swim.Lifecycle.{reset}
use libwake.Swim.Invariant.{IsValid}
use libwake.Swim.Api
use libwake.Swim.Api.{Handle}
use libwake.Swim.Calls.{IsSound, Step, Reach, Reach-IsSound}

rounds-add :
    (sw : Swim) (id : NodeId) (addr port now : ℕ)
    → (add_member sw id addr port now).1.rounds_completed ≡ sw.rounds_completed
unfolding add_member
rounds-add sw id addr port now = ground arith

rounds-remove :
    (sw : Swim) (id : NodeId) (now : ℕ)
    → (remove_member sw id now).1.rounds_completed ≡ sw.rounds_completed
unfolding remove_member
rounds-remove sw id now = ground arith

rounds-suspect :
    (sw : Swim) (id : NodeId) (now : ℕ)
    → (suspect_member sw id now).1.rounds_completed ≡ sw.rounds_completed
unfolding suspect_member
rounds-suspect sw id now = ground arith

rounds-set_incarnation :
    (sw : Swim) (id : NodeId) (inc : ℕ)
    → (set_incarnation sw id inc).rounds_completed ≡ sw.rounds_completed
unfolding set_incarnation
rounds-set_incarnation sw id inc = ground arith

rounds-adopt :
    (id : NodeId) (inc : ℕ) (r : Result × Swim)
    → (adopt id inc r).1.rounds_completed ≡ r.1.rounds_completed
unfolding adopt
rounds-adopt id inc (Result.ok, sw) = rounds-set_incarnation sw id inc
rounds-adopt id inc (_, sw) = refl

rounds-apply :
    (sw : Swim) (u : Update) (now : ℕ)
    → (apply_update sw u now).1.rounds_completed ≡ sw.rounds_completed
unfolding apply_update
rounds-apply sw u now = elim (Bool-cases (is_self sw u.node_id)) [
  | inl own ↦ rw own (ground arith)
  | inr apart ↦ rw apart (elim (Option-cases (find_member sw u.node_id)) [
    | inl new ↦ rw new (
        ground (
          arith,
          rounds-adopt u.node_id u.incarnation (add_member sw u.node_id u.addr u.port now),
          rounds-add sw u.node_id u.addr u.port now,
        ))
    | inr (i, old) ↦ rw old (ground arith)
  ])
]

rounds-recount_if : (n : ℕ) (sw : Swim) → (recount_if n sw).rounds_completed ≡ sw.rounds_completed
unfolding recount_if
rounds-recount_if zero sw = refl
rounds-recount_if (suc n) sw = refl

rounds-check :
    (sw : Swim) (now : ℕ)
    → IsValid sw
    → (check_suspects sw now).1.rounds_completed ≡ sw.rounds_completed
unfolding check_suspects
rounds-check sw now v =
    rounds-recount_if _ _
    ∙ (expire_loop-Frame (suspect_timeout sw) now sw.members sw v.queue).rounds_completed

rounds-reap :
    (sw : Swim) (now retention : ℕ)
    → (reap sw now retention).1.rounds_completed ≡ sw.rounds_completed
unfolding reap
rounds-reap sw now retention = rounds-recount_if _ _

rounds-delegates :
    (sw : Swim) (x : Option NodeId) (n : ℕ)
    → (select_delegates sw x n).1.rounds_completed ≡ sw.rounds_completed
unfolding select_delegates
rounds-delegates sw x n = ground arith

rounds-updates : (sw : Swim) (n : ℕ) → (get_updates sw n).1.rounds_completed ≡ sw.rounds_completed
unfolding get_updates
rounds-updates sw n = ground arith

-- The counter of a handle that is not null is zero.
abbrev pub HasNoRound : Handle → Type 0
HasNoRound none = Unit
HasNoRound (some sw) = sw.rounds_completed ≡ 0

Step-HasNoRound : {s t : Handle} → Step s t → IsSound s → HasNoRound s → HasNoRound t
unfolding report_health reset Api.add_member Api.remove_member Api.suspect_member Api.apply_update
    Api.next_probe Api.select_delegates Api.report_health Api.check_suspects Api.reap
    Api.get_updates Api.reset
Step-HasNoRound (Step.add none id addr port now) v h = tt
Step-HasNoRound (Step.add (some sw) none addr port now) v h = h
Step-HasNoRound (Step.add (some sw) (some id) addr port now) v h =
    rounds-add sw id addr port now ∙ h
Step-HasNoRound (Step.remove none id now) v h = tt
Step-HasNoRound (Step.remove (some sw) none now) v h = h
Step-HasNoRound (Step.remove (some sw) (some id) now) v h = rounds-remove sw id now ∙ h
Step-HasNoRound (Step.accuse none id now) v h = tt
Step-HasNoRound (Step.accuse (some sw) none now) v h = h
Step-HasNoRound (Step.accuse (some sw) (some id) now) v h = rounds-suspect sw id now ∙ h
Step-HasNoRound (Step.hear none u now) v h = tt
Step-HasNoRound (Step.hear (some sw) none now) v h = h
Step-HasNoRound (Step.hear (some sw) (some u) now) v h = rounds-apply sw u now ∙ h
Step-HasNoRound (Step.probe none) v h = tt
Step-HasNoRound (Step.probe (some sw)) v h = next_probe-rounds sw v ∙ h
Step-HasNoRound (Step.delegate none x has_out n) v h = tt
Step-HasNoRound (Step.delegate (some sw) x has_out n) v h =
    elim (Bool-cases (not has_out || n == 0)) [
      | inl idle ↦ rw idle h
      | inr busy ↦ rw busy (rounds-delegates sw x n ∙ h)
    ]
Step-HasNoRound (Step.judge none d) v h = tt
Step-HasNoRound (Step.judge (some sw) d) v h = h
Step-HasNoRound (Step.expire none now) v h = tt
Step-HasNoRound (Step.expire (some sw) now) v h = rounds-check sw now v ∙ h
Step-HasNoRound (Step.sweep none now retention) v h = tt
Step-HasNoRound (Step.sweep (some sw) now retention) v h = rounds-reap sw now retention ∙ h
Step-HasNoRound (Step.gossip none has_out n) v h = tt
Step-HasNoRound (Step.gossip (some sw) true n) v h = rounds-updates sw n ∙ h
Step-HasNoRound (Step.gossip (some sw) false n) v h = h
Step-HasNoRound (Step.restart none) v h = tt
Step-HasNoRound (Step.restart (some sw)) v h = refl

-- From a valid state whose round counter is zero the counter is zero after any sequence of calls.
pub Reach-HasNoRound : {s t : Handle} → IsSound s → HasNoRound s → Reach s t → HasNoRound t
Reach-HasNoRound v h Reach.here = h
Reach-HasNoRound v h (Reach.next r st) =
    Step-HasNoRound st (Reach-IsSound v r) (Reach-HasNoRound v h r)
