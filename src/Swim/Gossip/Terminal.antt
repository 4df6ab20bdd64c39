-- ===== src/Swim/Gossip/Terminal.antt =====
-- Departed members, repeated departures, and state bytes that name no state.
use libwake.Common.{
  ℕ, ◌≡◌, ◌≢◌, ◌<◌, refl, ◌∙◌, ap, Option, some, true, false, arith, Bool-cases, mem_eq_refl, inl,
  inr,
}
use libwake.Swim.Types.{Member, Update, Swim, Result}
use libwake.Swim.State
use libwake.Swim.State.{state_supersedes}
use libwake.Swim.Members.{is_self}
use libwake.Swim.Invariant.{IsValid}
use libwake.Swim.Suspicion.{reap}
use libwake.Swim.Suspicion.View.{lookup-reap}
use libwake.Swim.Gossip.{updated, apply_update}
use libwake.Swim.Gossip.Preserve.{apply_update-IsValid}
use libwake.Swim.Gossip.Merge.{view, wins, merge, has_room, verdict, apply_update-Refines}

-- An update about a known node, read at that node.
module _ (sw : Swim) (u : Update) (now : ℕ) (m : Member) (apart : is_self sw u.node_id ≡ false)
    (known : view sw u.node_id ≡ some m) where
  at_node :
      ((apply_update sw u now).0 ≡ verdict (has_room sw) (some m) u)
      × (view (apply_update sw u now).1 u.node_id ≡ merge (has_room sw) (some m) u now)
  at_node =
      let r = apply_update-Refines sw u now u.node_id apart in
      (
        r.code ∙ ap (λ (o : Option Member). verdict (has_room sw) o u) known,
        r.reads
            ∙ rw (mem_eq_refl u.node_id)
                (ap (λ (o : Option Member). merge (has_room sw) o u now) known),
      )

  won :
      wins u m ≡ true
      → ((apply_update sw u now).0 ≡ Result.ok)
        × (view (apply_update sw u now).1 u.node_id ≡ some (updated m u now))
  unfolding updated
  won w = (at_node.0 ∙ rw w, at_node.1 ∙ rw w)

  -- A known node that has left stays departed, whatever is heard of it, where it is not this node.
  pub left_final :
      m.state ≡ State.left
      → (m' : Member) × (view (apply_update sw u now).1 u.node_id ≡ some m')
        × (m'.state ≡ State.left)
  unfolding state_supersedes updated
  left_final gone = elim (Bool-cases (wins u m)) [
    | inl w ↦ (updated m u now, (won w).1, ground (arith, w))
    | inr l ↦ (m, at_node.1 ∙ rw l, gone)
  ]

  -- A LEFT update about a known node that has left, at any incarnation, answers OK, is taken over,
  -- and moves the time of the departure to now.
  pub left_again :
      u.state ≡ State.left
      → m.state ≡ State.left
      → ((apply_update sw u now).0 ≡ Result.ok)
        × (view (apply_update sw u now).1 u.node_id ≡ some (updated m u now))
        × ((updated m u now).last_change_ms ≡ now)
  unfolding state_supersedes updated
  left_again says gone = let w : wins u m ≡ true = ground arith in ((won w).0, (won w).1, refl)

  -- In a valid state, an update with a byte above LEFT, about a known node that has not left and
  -- at a higher incarnation than its entry, is taken over with its byte, which is not probeable;
  -- the entry is then kept by a reaping at any time with any retention.
  pub odd_state_stays :
      IsValid sw
      → State.left < u.state
      → m.state ≢ State.left
      → m.incarnation < u.incarnation
      → (later retention : ℕ)
      → let after = (apply_update sw u now).1 in
        (view (reap after later retention).1 u.node_id ≡ some (updated m u now))
        × ((updated m u now).state ≡ u.state)
        × (State.is_probeable u.state ≡ false)
  unfolding state_supersedes updated
  odd_state_stays v odd not_left higher later retention =
      let w : wins u m ≡ true = ground arith in
      let after = (apply_update sw u now).1 in
      let valid = apply_update-IsValid sw u now v in
      (
        lookup-reap after later retention u.node_id (updated m u now) valid (won w).1
            (ground arith),
        refl,
        ground arith,
      )
