-- ===== src/Swim/Gossip/Join.antt =====
-- A node that joins through an update, and what is gossiped about it.
use libwake.Common.{
  ℕ, [], ◌∷◌, ◌++◌, inc32, inc64, ◌≡◌, refl, ◌∙◌, ap, Option, none, some, true, false, leb, ◌==◌,
  length, arith, Option-cases, inl, inr, mem_eq_refl,
}
use libwake.Common.Keyed.{find_index_of_lookup}
use libwake.Swim.Types.{NodeId, Member, Update, Swim, Result}
use libwake.Swim.State
use libwake.Swim.Queue.{update_of}
use libwake.Swim.Queue.Laws.{IsQueue}
use libwake.Swim.Members.{id_of, find_member, is_self, append_member, new_member, add_member}
use libwake.Swim.Invariant.{IsValid}
use libwake.Swim.Gossip.{apply_update, apply_unknown, adopt, set_incarnation}
use libwake.Swim.Gossip.Merge.{view, joined, merge, has_room, apply_update-Refines}
use libwake.Swim.Gossip.Refute.{pending, pending-queue_update}

updates-set_incarnation :
    (sw : Swim) (id : NodeId) (inc : ℕ) → (set_incarnation sw id inc).updates ≡ sw.updates
unfolding set_incarnation
updates-set_incarnation sw id inc = elim (Option-cases (find_member sw id)) [
  | inl lost ↦ rw (lost, set_incarnation)
  | inr (i, found) ↦ rw (found, set_incarnation)
]

pending-append_member :
    (sw : Swim) (m : Member)
    → IsQueue sw.config.update_queue_size sw.updates
    → pending (append_member sw m) m.node_id ≡ some (update_of m)
unfolding append_member
pending-append_member sw m q =
    pending-queue_update
      (record sw {
        members = sw.members ++ m ∷ [];
        alive_count = inc32 sw.alive_count;
        state_changes = inc64 sw.state_changes;
      })
      m q

module _ (sw : Swim) (u : Update) (now : ℕ) (apart : is_self sw u.node_id ≡ false)
    (unknown : view sw u.node_id ≡ none) (room : has_room sw ≡ true)
    (live : u.state ≡ State.alive) where
  abbrev fresh : Member
  fresh = new_member u.node_id u.addr u.port now

  absent : find_member sw u.node_id ≡ none
  absent = find_index_of_lookup id_of sw.members u.node_id unknown

  added : add_member sw u.node_id u.addr u.port now ≡ (Result.ok, append_member sw fresh)
  unfolding add_member
  added =
      let free : leb sw.config.max_members (length sw.members) ≡ false = ground (arith, room) in
      rw (apart, absent, free) refl

  adopted :
      apply_update sw u now
      ≡ (Result.ok, set_incarnation (append_member sw fresh) u.node_id u.incarnation)
  unfolding apply_update apply_unknown adopt
  adopted =
      let live' : (u.state == State.alive) ≡ true = ground arith in
      rw (apart, absent, live', added) refl

  gossiped :
      IsQueue sw.config.update_queue_size sw.updates
      → pending (append_member sw fresh) u.node_id
        ≡ some (record u { state = State.alive; incarnation = 0; piggyback_count = 0 })
  unfolding new_member update_of
  gossiped q = pending-append_member sw fresh q

  -- In a valid state with room, an unknown node that joins with an ALIVE update of any incarnation
  -- stands in the table at that incarnation, and is queued for gossip at incarnation 0.
  pub joins_at_zero :
      IsValid sw
      → let after = (apply_update sw u now).1 in
        (view after u.node_id ≡ some (joined u now))
        × (pending after u.node_id
            ≡ some (record u { state = State.alive; incarnation = 0; piggyback_count = 0 }))
  joins_at_zero v =
      let r = apply_update-Refines sw u now u.node_id apart in
      let live' : (u.state == State.alive) ≡ true = ground arith in
      (
        r.reads
            ∙ rw (mem_eq_refl u.node_id) (
                ap (λ (o : Option Member). merge (has_room sw) o u now) unknown
                ∙ rw (live', room) refl),
        rw (adopted, updates-set_incarnation) (gossiped v.queue),
      )
