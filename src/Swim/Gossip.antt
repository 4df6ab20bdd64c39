-- ===== src/Swim/Gossip.antt =====
-- `wake_swim_apply_update` of src/wake_swim.c: the state machine driven by peers' updates.
pub mod Preserve
pub mod Join
pub mod Terminal
pub mod Refute
pub mod Converge
pub mod Merge
use libwake.Common.{
  ℕ, ◌+◌, Option, none, some, List, Bool, true, false, leb, ltb, ◌==◌, ◌&&◌, ◌||◌, if◌then◌else◌,
  set, inc32, not,
}
use libwake.Swim.Types.{NodeId, Member, Update, Swim, Result}
use libwake.Swim.State
use libwake.Swim.State.{state_supersedes}
use libwake.Swim.Queue.{queue_update}
use libwake.Swim.Members.{find_member, is_self, member_at, add_member, change_member}

-- An update about this node itself.
pub self_member : Swim → ℕ → Member
self_member sw now = record {
  node_id = sw.self_id;
  last_change_ms = now;
  suspect_ms = 0;
  addr = sw.self_addr;
  incarnation = sw.self_incarnation;
  port = sw.self_port;
  state = State.alive;
}

-- the increment wraps at 2 ^ 32
pub refuting_incarnation : ℕ → ℕ → ℕ
refuting_incarnation own heard = if leb own heard then inc32 heard else own

pub apply_self : Swim → Update → ℕ → Result × Swim
unfolding self_member refuting_incarnation queue_update
apply_self sw u now =
    if u.state == State.suspect || u.state == State.dead
    then (let bumped = record sw {
      self_incarnation = refuting_incarnation sw.self_incarnation u.incarnation;
    } in
        (Result.ok, queue_update bumped (self_member bumped now)))
    else (
      Result.noop,
      record sw {
        self_incarnation =
            if ltb sw.self_incarnation u.incarnation then u.incarnation else sw.self_incarnation;
      },
    )

-- An update about a node that is not in the table.
unfoldable pub set_incarnation : Swim → NodeId → ℕ → Swim
set_incarnation sw id inc = elim (find_member sw id) [
  | none ↦ sw
  | some i ↦
      let old = member_at sw i in
      record sw { members = set sw.members i (record old { incarnation = inc }) }
]

unfoldable pub adopt : NodeId → ℕ → Result × Swim → Result × Swim
unfolding set_incarnation
adopt id inc (Result.ok, sw) = (Result.ok, set_incarnation sw id inc)
adopt id inc (r, sw) = (r, sw)

pub apply_unknown : Swim → Update → ℕ → Result × Swim
unfolding adopt add_member
apply_unknown sw u now =
    if u.state == State.alive
    then adopt u.node_id u.incarnation (add_member sw u.node_id u.addr u.port now)
    else (Result.not_found, sw)

-- An update about a member: what it writes into the entry.
pub updated : Member → Update → ℕ → Member
updated m u now = record m {
  state = u.state;
  incarnation = u.incarnation;
  addr = u.addr;
  port = u.port;
  last_change_ms = now;
  suspect_ms = if u.state == State.suspect then now else 0;
}

pub apply_known : Swim → ℕ → Update → ℕ → Result × Swim
unfolding updated change_member state_supersedes
apply_known sw i u now =
    let m = member_at sw i in
    if not (state_supersedes u.state u.incarnation m.state m.incarnation)
    then (if u.state == m.state && u.incarnation == m.incarnation
        then (Result.noop, sw)
        else (Result.stale, sw))
    else (Result.ok, change_member sw i (updated m u now))

unfoldable pub apply_update : Swim → Update → ℕ → Result × Swim
unfolding apply_self apply_unknown apply_known
apply_update sw u now =
    if is_self sw u.node_id then apply_self sw u now else elim (find_member sw u.node_id) [
      | none ↦ apply_unknown sw u now
      | some i ↦ apply_known sw i u now
    ]
