-- ===== src/Swim/Gossip/Merge.antt =====
-- The abstract specification of `wake_swim_apply_update`: a map from nodes to entries, each of which
-- an update about its node merges into.
use libwake.Common.{
  ℕ, ◌≡◌, refl, sym, ◌∙◌, ap, Option, none, some, Bool, false, leb, ◌==◌, ◌&&◌, ◌||◌, ltb, not,
  if◌then◌else◌, length, arith, Bool-cases, Option-cases, inl, inr, mem_eq, mem_eq_refl, mem_eq→eq,
}
use libwake.Common.Keyed.{lookup, lookup-set, lookup-append, lookup-find_index, lookup-eq-none}
use libwake.Swim.Types.{NodeId, Member, Update, Swim, Result}
use libwake.Swim.State
use libwake.Swim.State.{state_supersedes}
use libwake.Swim.Members.{
  id_of, zero_member, find_member, is_self, member_at, append_member, new_member, add_member,
}
use libwake.Swim.Members.Preserve.{find_member_same}
use libwake.Swim.Gossip.{updated, apply_known, apply_unknown, apply_update, adopt, set_incarnation}

-- What a state says of a node.
abbrev pub view : Swim → NodeId → Option Member
view sw j = lookup id_of sw.members j

abbrev pub has_room : Swim → Bool
has_room sw = not (leb sw.config.max_members (length sw.members))

-- The entry of a node that joins through an update.
abbrev pub joined : Update → ℕ → Member
joined u now = record {
  node_id = u.node_id;
  last_change_ms = now;
  suspect_ms = 0;
  addr = u.addr;
  incarnation = u.incarnation;
  port = u.port;
  state = u.state;
}

-- The entry of a known node that takes an update over: the node stays, its suspicion starts or ends.
abbrev pub learned : Member → Update → ℕ → Member
learned m u now = record {
  node_id = m.node_id;
  last_change_ms = now;
  suspect_ms = if u.state == State.suspect then now else 0;
  addr = u.addr;
  incarnation = u.incarnation;
  port = u.port;
  state = u.state;
}

-- Does the update win over the entry? LEFT wins always, and loses to LEFT alone; else the higher
-- incarnation wins, and at one incarnation the higher state.
abbrev pub wins : Update → Member → Bool
wins u m =
    u.state == State.left
    || (not (m.state == State.left)
        && (ltb m.incarnation u.incarnation
            || (u.incarnation == m.incarnation && ltb m.state u.state)))

pub supersedes-wins :
    (u : Update) (m : Member)
    → state_supersedes u.state u.incarnation m.state m.incarnation ≡ wins u m
unfolding state_supersedes
supersedes-wins u m = ground arith

abbrev pub merge : Bool → Option Member → Update → ℕ → Option Member
merge room none u now =
    if u.state == State.alive then (if room then some (joined u now) else none) else none
merge room (some m) u now = if wins u m then some (learned m u now) else some m

-- The code returned.
abbrev pub verdict : Bool → Option Member → Update → Result
verdict room none u =
    if u.state == State.alive then (if room then Result.ok else Result.full) else Result.not_found
verdict room (some m) u =
    if wins u m
    then Result.ok
    else if u.state == m.state && u.incarnation == m.incarnation
    then Result.noop
    else Result.stale

-- Every other node reads as before.
abbrev pub merged : Swim → Update → ℕ → NodeId → Option Member
merged sw u now j =
    if mem_eq u.node_id j then merge (has_room sw) (view sw u.node_id) u now else view sw j

-- The two things that `apply_update` leaves: its code, and what it says of a node.
pub record Refines (sw : Swim) (u : Update) (now : ℕ) (r : Result × Swim) (j : NodeId)
    : Type 0 where
  pub code : r.0 ≡ verdict (has_room sw) (view sw u.node_id) u
  pub reads : view r.1 j ≡ merged sw u now j

unchanged :
    (sw : Swim) (id : NodeId) (m : Member) (j : NodeId)
    → view sw id ≡ some m
    → view sw j ≡ (if mem_eq id j then some m else view sw j)
unchanged sw id m j e = elim (Bool-cases (mem_eq id j)) [
  | inl here ↦ rw here (ap (view sw) (sym (mem_eq→eq id j here)) ∙ e)
  | inr apart ↦ rw apart
]

known-Refines :
    (sw : Swim) (i : ℕ) (u : Update) (now : ℕ) (j : NodeId)
    → find_member sw u.node_id ≡ some i
    → Refines sw u now (apply_known sw i u now) j
unfolding apply_known updated
known-Refines sw i u now j found =
    let m = member_at sw i in
    let here = lookup-find_index id_of sw.members u.node_id i zero_member found in
    let entry = updated m u now in
    let written = lookup-set id_of sw.members i entry j (find_member_same sw u.node_id i found) in
    let test = supersedes-wins u m in
    elim (Bool-cases (wins u m)) [
      | inl over ↦ record {
        code = rw (here.0) (rw (test, over) refl);
        reads = rw (here.0) (
            rw (test, over)
              (written ∙ ap (λ (n : NodeId). if mem_eq n j then some entry else view sw j) here.1));
      }
      | inr under ↦ elim (Bool-cases (u.state == m.state && u.incarnation == m.incarnation)) [
        | inl same ↦ record {
          code = rw (here.0) (rw (test, under, same) refl);
          reads = rw (here.0) (rw (test, under, same) (unchanged sw u.node_id m j here.0));
        }
        | inr older ↦ record {
          code = rw (here.0) (rw (test, under, older) refl);
          reads = rw (here.0) (rw (test, under, older) (unchanged sw u.node_id m j here.0));
        }
      ]
    ]

-- A node that is not in the table.
absent-unchanged :
    (sw : Swim) (id j : NodeId)
    → view sw id ≡ none
    → view sw j ≡ (if mem_eq id j then none else view sw j)
absent-unchanged sw id j e = elim (Bool-cases (mem_eq id j)) [
  | inl here ↦ rw here (ap (view sw) (sym (mem_eq→eq id j here)) ∙ e)
  | inr apart ↦ rw apart
]

-- A change of the incarnation alone.
set_incarnation-view :
    (sw : Swim) (id : NodeId) (inc : ℕ) (m : Member) (j : NodeId)
    → view sw id ≡ some m
    → view (set_incarnation sw id inc) j
      ≡ (if mem_eq id j then some (record m { incarnation = inc }) else view sw j)
unfolding set_incarnation
set_incarnation-view sw id inc m j present = elim (Option-cases (find_member sw id)) [
  | inl lost ↦ absurd (cc (present, lookup-eq-none id_of sw.members id lost))
  | inr (i, found) ↦
      let here = lookup-find_index id_of sw.members id i zero_member found in
      let same : member_at sw i ≡ m = cc (here.0, present) in
      let entry : Member = record (member_at sw i) { incarnation = inc } in
      let written = lookup-set id_of sw.members i entry j (find_member_same sw id i found) in
      rw (found, set_incarnation)
        (written
          ∙ (ap (λ (n : NodeId). if mem_eq n j then some entry else view sw j) here.1
              ∙ ap
                  (λ (x : Member).
                    if mem_eq id j then some (record x { incarnation = inc }) else view sw j)
                  same))
]

-- Joining: the entry is appended, and takes the incarnation of the update.
append-joined :
    (sw : Swim) (u : Update) (now : ℕ) (j : NodeId)
    → find_member sw u.node_id ≡ none
    → u.state ≡ State.alive
    → view
        (set_incarnation
          (append_member sw (new_member u.node_id u.addr u.port now))
          u.node_id
          u.incarnation)
        j
      ≡ (if mem_eq u.node_id j then some (joined u now) else view sw j)
unfolding append_member new_member
append-joined sw u now j absent live =
    let fresh = new_member u.node_id u.addr u.port now in
    let sw' = append_member sw fresh in
    let read = λ (k : NodeId). lookup-append id_of sw.members fresh k absent in
    let present : view sw' u.node_id ≡ some fresh =
      read u.node_id ∙ rw (mem_eq_refl u.node_id) refl in
    let set = set_incarnation-view sw' u.node_id u.incarnation fresh j present in
    elim (Bool-cases (mem_eq u.node_id j)) [
      | inl here ↦
          rw here
            (rw here at set ∙ ap (λ (s : ℕ). some (record (joined u now) { state = s })) (sym live))
      | inr apart ↦ rw apart (rw apart at set ∙ rw apart at (read j))
    ]

unknown-Refines :
    (sw : Swim) (u : Update) (now : ℕ) (j : NodeId)
    → is_self sw u.node_id ≡ false
    → find_member sw u.node_id ≡ none
    → Refines sw u now (apply_unknown sw u now) j
unfolding apply_unknown add_member adopt
unknown-Refines sw u now j apart absent =
    let nothing = lookup-eq-none id_of sw.members u.node_id absent in
    elim (Bool-cases (u.state == State.alive)) [
      | inr gone ↦ record {
        code = rw nothing (rw gone refl);
        reads = rw nothing (rw gone (absent-unchanged sw u.node_id j nothing));
      }
      | inl live ↦ elim (Bool-cases (leb sw.config.max_members (length sw.members))) [
        | inl full ↦ record {
          code = rw nothing (rw (live, apart, absent, full) refl);
          reads =
              rw nothing (rw (live, apart, absent, full) (absent-unchanged sw u.node_id j nothing));
        }
        | inr room ↦ record {
          code = rw nothing (rw (live, apart, absent, room) refl);
          reads =
              rw nothing
                (rw (live, apart, absent, room) (append-joined sw u now j absent (ground arith)));
        }
      ]
    ]

-- `apply_update` implements the specification: an update about a node other than this one merges
-- into what the state says of that node, changes nothing that it says of any other, and returns
-- the verdict.
pub apply_update-Refines :
    (sw : Swim) (u : Update) (now : ℕ) (j : NodeId)
    → is_self sw u.node_id ≡ false
    → Refines sw u now (apply_update sw u now) j
unfolding apply_update
apply_update-Refines sw u now j apart = elim (Option-cases (find_member sw u.node_id)) [
  | inl absent ↦ rw (apart, absent) (unknown-Refines sw u now j apart absent)
  | inr (i, found) ↦ rw (apart, found) (known-Refines sw i u now j found)
]
