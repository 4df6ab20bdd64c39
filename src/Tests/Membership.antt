-- ===== src/Tests/Membership.antt =====
-- The properties of the member table and of gossip at concrete inputs.
use libwake.Common.{ℕ, ◌^◌, ◌-◌, ◌≡◌, ◌≤◌, ◌<◌, refl, some, true, false, mem_eq, arith}
use libwake.Swim.Types.{Member, Result}
use libwake.Swim.State
use libwake.Swim.State.{state_supersedes}
use libwake.Swim.Gossip.{apply_update}
use libwake.Swim.Gossip.Merge.{view, joined, Refines, apply_update-Refines}
use libwake.Swim.Gossip.Converge.{standing, updates_commute}
use libwake.Swim.Gossip.Refute.{pending, refutation, refute, refute_wraps}
use libwake.Swim.Gossip.Terminal.{left_final}
use libwake.Swim.Gossip.Join.{joins_at_zero}
use libwake.Tests.Samples.{node, member, update, table, table-IsValid}

apply_update-Refines_example :
    Refines table
      (update 2 State.dead 3)
      5000
      (apply_update table (update 2 State.dead 3) 5000)
      (node 2)
unfolding mem_eq
apply_update-Refines_example = apply_update-Refines table (update 2 State.dead 3) 5000 (node 2) refl

updates_commute_example :
    standing
      (apply_update
        (apply_update table (update 2 State.dead 3) 5000).1
        (update 2 State.alive 4)
        6000).1
      (node 2)
    ≡ standing
        (apply_update
          (apply_update table (update 2 State.alive 4) 5000).1
          (update 2 State.dead 3)
          6000).1
        (node 2)
unfolding mem_eq
updates_commute_example =
    updates_commute table (update 2 State.dead 3) (update 2 State.alive 4) 5000 6000 (node 2) refl
      refl (λ e. ground (arith, e)) (λ e. ground (arith, e)) (λ same l r. absurd (omega (arith, l)))

refute_example :
    let (code, after) = apply_update table (update 9 State.suspect 6) 5000 in
    (code ≡ Result.ok)
    × (6 < after.self_incarnation)
    × (4 ≤ after.self_incarnation)
    × (pending after (node 9) ≡ some (refutation table after.self_incarnation))
    × (state_supersedes State.alive after.self_incarnation State.suspect 6 ≡ true)
    × (after.members ≡ table.members)
unfolding mem_eq
refute_example = refute table (update 9 State.suspect 6) 5000 table-IsValid refl refl (omega arith)

refute_wraps_example :
    let (code, after) = apply_update table (update 9 State.dead (2 ^ 32 - 1)) 5000 in
    (after.self_incarnation ≡ 0)
    × (pending after (node 9) ≡ some (refutation table 0))
    × (state_supersedes State.alive 0 State.dead (2 ^ 32 - 1) ≡ false)
unfolding mem_eq
refute_wraps_example =
    refute_wraps table (update 9 State.dead (2 ^ 32 - 1)) 5000 table-IsValid refl refl refl
      (omega arith)

left_final_example :
    (m' : Member) × (view (apply_update table (update 3 State.alive 9) 5000).1 (node 3) ≡ some m')
    × (m'.state ≡ State.left)
unfolding mem_eq
left_final_example =
    left_final table (update 3 State.alive 9) 5000 (member 3 State.left 1 2000) refl refl refl

joins_at_zero_example :
    let u = update 4 State.alive 12 in
    let after = (apply_update table u 5000).1 in
    (view after (node 4) ≡ some (joined u 5000))
    × (pending after (node 4)
        ≡ some (record u { state = State.alive; incarnation = 0; piggyback_count = 0 }))
unfolding mem_eq
joins_at_zero_example =
    joins_at_zero table (update 4 State.alive 12) 5000 refl refl refl refl table-IsValid

abbrev three : ℕ
three = 3
