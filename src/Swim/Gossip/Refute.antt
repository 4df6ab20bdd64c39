-- ===== src/Swim/Gossip/Refute.antt =====
-- Updates about this node itself, and how it answers an accusation.
use libwake.Common.{
  ℕ, ◌+◌, ◌-◌, ◌^◌, ◌≡◌, ◌≤◌, ◌<◌, refl, ◌∙◌, Option, some, true, false, ltb, ◌==◌, ◌||◌, arith,
  inl, inr, mem_eq_refl, mem_eq_comm, sym,
}
use libwake.Common.Keyed.{lookup}
use libwake.Swim.Types.{NodeId, Member, Update, Swim, Result}
use libwake.Swim.State
use libwake.Swim.State.{state_supersedes}
use libwake.Swim.Queue.{node_of, update_of, queue_update}
use libwake.Swim.Queue.Laws.{IsQueue, enqueue-effect}
use libwake.Swim.Members.{is_self}
use libwake.Swim.Invariant.{IsValid}
use libwake.Swim.Gossip.{self_member, refuting_incarnation, apply_update}

-- The queue's update about a node.
abbrev pub pending : Swim → NodeId → Option Update
pending sw j = lookup node_of sw.updates j

-- A queued entry is what the queue holds for its node.
pub pending-queue_update :
    (sw : Swim) (m : Member)
    → IsQueue sw.config.update_queue_size sw.updates
    → pending (queue_update sw m) m.node_id ≡ some (update_of m)
unfolding queue_update
pending-queue_update sw m q =
    elim (enqueue-effect sw.config.update_queue_size sw.updates (update_of m) q) [
      | inl e ↦ e m.node_id ∙ rw (mem_eq_refl m.node_id) refl
      | inr lost ↦
          let other = mem_eq_comm m.node_id lost.victim.node_id in
          let apart = lost.apart in
          lost.reads m.node_id ∙ rw (sym other, apart, mem_eq_refl m.node_id) refl
    ]

rises :
    (own heard : ℕ)
    → heard + 1 < 2 ^ 32
    → (heard < refuting_incarnation own heard) × (own ≤ refuting_incarnation own heard)
unfolding refuting_incarnation
rises own heard h = ground arith

wraps : (own heard : ℕ) → heard ≡ 2 ^ 32 - 1 → own < 2 ^ 32 → refuting_incarnation own heard ≡ 0
unfolding refuting_incarnation
wraps own heard h small = ground arith

alive-supersedes :
    (s inc heard : ℕ)
    → (s == State.suspect || s == State.dead) ≡ true
    → state_supersedes State.alive inc s heard ≡ ltb heard inc
unfolding state_supersedes
alive-supersedes s inc heard h = ground arith

-- What a refutation tells the others.
abbrev pub refutation : Swim → ℕ → Update
refutation sw inc = record {
  node_id = sw.self_id;
  addr = sw.self_addr;
  port = sw.self_port;
  state = State.alive;
  incarnation = inc;
  piggyback_count = 0;
}

module _ (sw : Swim) (u : Update) (now : ℕ) (v : IsValid sw) (own : is_self sw u.node_id ≡ true)
    (accused : (u.state == State.suspect || u.state == State.dead) ≡ true) where
  abbrev new_incarnation : ℕ
  new_incarnation = refuting_incarnation sw.self_incarnation u.incarnation

  abbrev bumped : Swim
  bumped = record sw { self_incarnation = new_incarnation }

  answer : apply_update sw u now ≡ (Result.ok, queue_update bumped (self_member bumped now))
  unfolding apply_update
  answer = rw (own, accused) refl

  answer_told :
      pending (queue_update bumped (self_member bumped now)) sw.self_id
      ≡ some (refutation sw new_incarnation)
  unfolding self_member update_of
  answer_told = pending-queue_update bumped (self_member bumped now) v.queue

  answer_frame :
      let after = queue_update bumped (self_member bumped now) in
      (after.self_incarnation ≡ new_incarnation) × (after.members ≡ sw.members)
  unfolding queue_update
  answer_frame = (refl, refl)

  -- In a valid state an accusation, SUSPECT or DEAD, of this node below the largest incarnation is
  -- answered: this node's incarnation rises above it and does not fall, the queue tells that this
  -- node is alive at it, and peers let that supersede the accusation. The table is not touched.
  pub refute :
      u.incarnation + 1 < 2 ^ 32
      → let (code, after) = apply_update sw u now in
        (code ≡ Result.ok)
        × (u.incarnation < after.self_incarnation)
        × (sw.self_incarnation ≤ after.self_incarnation)
        × (pending after sw.self_id ≡ some (refutation sw after.self_incarnation))
        × (state_supersedes State.alive after.self_incarnation u.state u.incarnation ≡ true)
        × (after.members ≡ sw.members)
  refute h =
      rw (answer, answer_told, answer_frame.0, answer_frame.1)
        (let up = rises sw.self_incarnation u.incarnation h in
          let wins = alive-supersedes u.state new_incarnation u.incarnation accused in
          (refl, up.0, up.1, refl, wins ∙ ground (arith, up.0), refl))

  -- In a valid state an accusation of this node at the largest incarnation is not answered: the
  -- increment wraps to 0, and peers do not let the queued update supersede the accusation.
  pub refute_wraps :
      u.incarnation ≡ 2 ^ 32 - 1
      → sw.self_incarnation < 2 ^ 32
      → let (code, after) = apply_update sw u now in
        (after.self_incarnation ≡ 0)
        × (pending after sw.self_id ≡ some (refutation sw 0))
        × (state_supersedes State.alive 0 u.state u.incarnation ≡ false)
  refute_wraps top small =
      let zero = wraps sw.self_incarnation u.incarnation top small in
      let loses = alive-supersedes u.state 0 u.incarnation accused in
      rw (answer, answer_told, answer_frame.0, zero) (refl, refl, loses ∙ ground (arith, top))
