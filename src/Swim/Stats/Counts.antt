-- ===== src/Swim/Stats/Counts.antt =====
-- The statistics snapshot against the table.
use libwake.Common.{ℕ, ◌+◌, ◌≡◌, refl, List, [], ◌∷◌, ◌==◌, length, arith, count_if}
use libwake.Swim.Types.{Member, Swim}
use libwake.Swim.State
use libwake.Swim.Members.{count_alive}
use libwake.Swim.Invariant.{IsValid}
use libwake.Swim.Stats.{Stats, zero_stats, tally, tally_all, stats}

abbrev pub in_state : ℕ → List Member → ℕ
in_state s = count_if (λ m. m.state == s)

record Tallied (ms : List Member) (t r : Stats) : Type 0 where
  total : r.total ≡ t.total + length ms
  alive : r.alive ≡ t.alive + in_state State.alive ms
  suspect : r.suspect ≡ t.suspect + in_state State.suspect ms
  dead : r.dead ≡ t.dead + in_state State.dead ms
  left : r.left ≡ t.left + in_state State.left ms

tally-Tallied : (m : Member) (t : Stats) → Tallied (m ∷ []) t (tally t m.state)
unfolding tally
tally-Tallied m t = record {
  total = ground arith;
  alive = ground arith;
  suspect = ground arith;
  dead = ground arith;
  left = ground arith;
}

count_cons :
    (s : ℕ) (m : Member) (ms : List Member)
    → in_state s (m ∷ ms) ≡ in_state s (m ∷ []) + in_state s ms
count_cons s m ms = ground arith

tally_all-Tallied : (ms : List Member) (t : Stats) → Tallied ms t (tally_all ms t)
unfolding tally_all
tally_all-Tallied [] t = omega arith
tally_all-Tallied (m ∷ ms) t =
    let one = tally-Tallied m t in
    let rest = tally_all-Tallied ms (tally t m.state) in
    record {
      total = omega (arith, one.total, rest.total);
      alive = omega (arith, one.alive, rest.alive, count_cons State.alive m ms);
      suspect = omega (arith, one.suspect, rest.suspect, count_cons State.suspect m ms);
      dead = omega (arith, one.dead, rest.dead, count_cons State.dead m ms);
      left = omega (arith, one.left, rest.left, count_cons State.left m ms);
    }

count_alive-split :
    (ms : List Member) → count_alive ms ≡ in_state State.alive ms + in_state State.suspect ms
count_alive-split [] = refl
count_alive-split (m ∷ ms) = ground (arith, count_alive-split ms)

-- In a valid state the snapshot counts the table: every entry once in the total, and each state by
-- itself; its number of probe targets is the one that the state keeps.
pub stats-counts :
    (sw : Swim)
    → IsValid sw
    → let t = stats sw in
      (t.total ≡ length sw.members)
      × (t.alive ≡ in_state State.alive sw.members)
      × (t.suspect ≡ in_state State.suspect sw.members)
      × (t.dead ≡ in_state State.dead sw.members)
      × (t.left ≡ in_state State.left sw.members)
      × (t.probe_eligible ≡ sw.alive_count)
unfolding stats
stats-counts sw v =
    let r = tally_all-Tallied sw.members zero_stats in
    omega
      (arith, r.total, r.alive, r.suspect, r.dead, r.left, v.counted, count_alive-split sw.members)
