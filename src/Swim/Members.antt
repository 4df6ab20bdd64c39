-- ===== src/Swim/Members.antt =====
-- The member table of src/wake_swim.c: lookup, add, remove, suspect.
-- Each function is the body after the tests for null handles, which stand in Swim/Api.antt.
pub mod Preserve
pub mod Table
use libwake.Common.{
  ℕ, ◌+◌, Bool, Option, none, some, List, [], ◌∷◌, ◌++◌, leb, ◌==◌, if◌then◌else◌, length, get_or,
  set, count_if, mem_eq, inc32, inc64, not,
}
use libwake.Common.Keyed.{find_index}
use libwake.Swim.Types.{NodeId, Member, Swim, Result}
use libwake.Swim.State
use libwake.Swim.Queue.{queue_update}

abbrev pub id_of : Member → NodeId
id_of m = m.node_id

-- the entry after `memset(m, 0, sizeof(*m))`
abbrev pub zero_member : Member
zero_member = record {
  node_id = [];
  last_change_ms = 0;
  suspect_ms = 0;
  addr = 0;
  incarnation = 0;
  port = 0;
  state = 0;
}

-- `none` is -1
abbrev pub find_member : Swim → NodeId → Option ℕ
find_member sw id = find_index id_of sw.members id

abbrev pub is_self : Swim → NodeId → Bool
is_self sw id = mem_eq sw.self_id id

abbrev pub count_alive : List Member → ℕ
count_alive = count_if (λ m. State.is_probeable m.state)

unfoldable pub recount_alive : Swim → Swim
recount_alive sw = record sw { alive_count = count_alive sw.members }

-- `sw->members[idx]`; every index comes from `find_member`, so the default is not read
abbrev pub member_at : Swim → ℕ → Member
member_at sw i = get_or sw.members i zero_member

-- What every change of a known member does after it has written the entry `m`: count the change,
-- recount, queue the update, forget the probe order.
unfoldable pub change_member : Swim → ℕ → Member → Swim
unfolding recount_alive queue_update
change_member sw i m =
    let changed = record sw {
      members = set sw.members i m;
      state_changes = inc64 sw.state_changes;
    } in
    let queued = queue_update (recount_alive changed) m in record queued { probe_order = [] }

unfoldable pub new_member : NodeId → ℕ → ℕ → ℕ → Member
new_member id addr port now = record {
  node_id = id;
  last_change_ms = now;
  suspect_ms = 0;
  addr = addr;
  incarnation = 0;
  port = port;
  state = State.alive;
}

unfoldable pub append_member : Swim → Member → Swim
unfolding queue_update
append_member sw m =
    let added = record sw {
      members = sw.members ++ m ∷ [];
      alive_count = inc32 sw.alive_count;
      state_changes = inc64 sw.state_changes;
    } in
    let queued = queue_update added m in record queued { probe_order = [] }

unfoldable pub add_member : Swim → NodeId → ℕ → ℕ → ℕ → Result × Swim
unfolding append_member new_member
add_member sw id addr port now =
    if is_self sw id then (Result.self, sw) else elim (find_member sw id) [
      | some i ↦ (Result.exists, sw)
      | none ↦
          if leb sw.config.max_members (length sw.members)
          then (Result.full, sw)
          else (Result.ok, append_member sw (new_member id addr port now))
    ]

unfoldable pub remove_member : Swim → NodeId → ℕ → Result × Swim
unfolding change_member
remove_member sw id now = if is_self sw id then (Result.self, sw) else elim (find_member sw id) [
  | none ↦ (Result.not_found, sw)
  | some i ↦
      let old = member_at sw i in
      let m = record old { state = State.left; last_change_ms = now; suspect_ms = 0 } in
      (Result.ok, change_member sw i m)
]

unfoldable pub suspect_member : Swim → NodeId → ℕ → Result × Swim
unfolding change_member
suspect_member sw id now = if is_self sw id then (Result.self, sw) else elim (find_member sw id) [
  | none ↦ (Result.not_found, sw)
  | some i ↦
      let old = member_at sw i in
      if not (old.state == State.alive)
      then (Result.stale, sw)
      else (let m = record old { state = State.suspect; suspect_ms = now; last_change_ms = now } in
          (Result.ok, change_member sw i m))
]

-- wake_swim_find: a pointer to the entry, or NULL
unfoldable pub find : Swim → NodeId → Option Member
find sw id = elim (find_member sw id) [ none ↦ none | some i ↦ some (member_at sw i) ]
