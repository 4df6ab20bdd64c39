-- ===== src/Tests/Timing.antt =====
-- The properties of suspicion timing, reaping and statistics at concrete inputs.
use libwake.Common.{◌≡◌, refl, none, some, mem_eq, arith, if◌then◌else◌}
use libwake.Common.Keyed.{lookup}
use libwake.Swim.State
use libwake.Swim.Members.{id_of}
use libwake.Swim.Suspicion.{suspect_timeout, check_suspects, reap}
use libwake.Swim.Suspicion.View.{check_suspects-view, reap-view, is_overdue}
use libwake.Tests.Samples.{node, member, table, table-IsValid}

check_suspects-view_example :
    lookup id_of (check_suspects table 20000).1.members (node 2)
    ≡ some (
        if is_overdue (suspect_timeout table) 20000 (member 2 State.suspect 3 1000)
        then record (member 2 State.suspect 3 1000) {
          state = State.dead;
          last_change_ms = 20000;
          suspect_ms = 0;
        }
        else member 2 State.suspect 3 1000)
unfolding mem_eq
check_suspects-view_example =
    check_suspects-view table 20000 (node 2) (member 2 State.suspect 3 1000) (omega arith) refl
      (omega arith)

reap-view_example : lookup id_of (reap table 20000 600).1.members (node 3) ≡ none
unfolding mem_eq
reap-view_example =
    reap-view table 20000 600 (node 3) (member 3 State.left 1 2000) table-IsValid (omega arith) refl
      (omega arith)
