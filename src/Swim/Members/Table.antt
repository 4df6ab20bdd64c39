-- ===== src/Swim/Members/Table.antt =====
-- The member operations as operations on a table of nodes.
use libwake.Common.{
  ℕ, ◌≡◌, ◌<◌, refl, sym, ◌∙◌, ap, Option, none, some, true, false, leb, ◌==◌, ◌&&◌, if◌then◌else◌,
  length, arith, Bool-cases, Option-cases, inl, inr, mem_eq,
}
use libwake.Common.Keyed.{
  lookup, lookup-find_index, lookup-append, lookup-set, lookup-eq-none, find_index_of_lookup,
}
use libwake.Swim.Types.{NodeId, Member, Swim, Result}
use libwake.Swim.State
use libwake.Swim.Members.{
  id_of, zero_member, find_member, is_self, member_at, change_member, append_member, new_member,
  add_member, remove_member, suspect_member, find,
}
use libwake.Swim.Members.Preserve.{find_member_same}

abbrev view : Swim → NodeId → Option Member
view sw j = lookup id_of sw.members j

-- `find` reads the table.
find-view : (sw : Swim) (id : NodeId) → find sw id ≡ view sw id
unfolding find
find-view sw id = elim (Option-cases (find_member sw id)) [
  | inl absent ↦ rw (absent, find) (sym (lookup-eq-none id_of sw.members id absent))
  | inr (i, found) ↦
      rw (found, find) (sym (lookup-find_index id_of sw.members id i zero_member found).0)
]

view-append :
    (sw : Swim) (m : Member) (j : NodeId)
    → find_member sw m.node_id ≡ none
    → view (append_member sw m) j ≡ (if mem_eq m.node_id j then some m else view sw j)
unfolding append_member
view-append sw m j absent = lookup-append id_of sw.members m j absent

view-change :
    (sw : Swim) (i : ℕ) (m : Member) (j : NodeId)
    → find_member sw m.node_id ≡ some i
    → view (change_member sw i m) j ≡ (if mem_eq m.node_id j then some m else view sw j)
unfolding change_member
view-change sw i m j found = lookup-set id_of sw.members i m j found

-- Adding a node that is neither this node nor known, with room left, answers OK and makes the node
-- alive at incarnation 0; every other node reads as before.
pub find-add_member :
    (sw : Swim) (id : NodeId) (addr port now : ℕ) (j : NodeId)
    → is_self sw id ≡ false
    → find sw id ≡ none
    → length sw.members < sw.config.max_members
    → let r = add_member sw id addr port now in
      (r.0 ≡ Result.ok)
      × (find r.1 j ≡ (if mem_eq id j then some (new_member id addr port now) else find sw j))
unfolding add_member
find-add_member sw id addr port now j apart unknown room =
    let absent : find_member sw id ≡ none =
      find_index_of_lookup id_of sw.members id (sym (find-view sw id) ∙ unknown) in
    let free : leb sw.config.max_members (length sw.members) ≡ false = ground arith in
    let fresh = new_member id addr port now in
    rw (apart, absent, free)
      (
        refl,
        find-view (append_member sw fresh) j
            ∙ (view-append sw fresh j absent
                ∙ ap (λ (o : Option Member). if mem_eq id j then some fresh else o)
                    (sym (find-view sw j))),
      )

-- A change `f` of the entry of a known node.
find-change :
    (sw : Swim) (id : NodeId) (i : ℕ) (m : Member) (f : Member → Member) (j : NodeId)
    → ((x : Member) → (f x).node_id ≡ x.node_id)
    → find_member sw id ≡ some i
    → find sw id ≡ some m
    → (find (change_member sw i (f (member_at sw i))) j
        ≡ (if mem_eq id j then some (f m) else find sw j))
      × (member_at sw i ≡ m)
find-change sw id i m f j keeps found known =
    let old = member_at sw i in
    let here = lookup-find_index id_of sw.members id i zero_member found in
    let same : old ≡ m = cc (here.0, known, find-view sw id) in
    let same_id : find_member sw (f old).node_id ≡ some i =
      rw (keeps old) (find_member_same sw id i found) in
    (
      find-view (change_member sw i (f old)) j
          ∙ (view-change sw i (f old) j same_id
              ∙ (ap (λ (n : NodeId). if mem_eq n j then some (f old) else view sw j)
                    (keeps old ∙ here.1)
                  ∙ (ap (λ (x : Member). if mem_eq id j then some (f x) else view sw j) same
                      ∙ ap (λ (o : Option Member). if mem_eq id j then some (f m) else o)
                          (sym (find-view sw j))))),
      same,
    )

known-index :
    (sw : Swim) (id : NodeId) (m : Member)
    → find sw id ≡ some m
    → (i : ℕ) × (find_member sw id ≡ some i)
known-index sw id m known = elim (Option-cases (find_member sw id)) [
  | inr (i, found) ↦ (i, found)
  | inl absent ↦
      let nothing = lookup-eq-none id_of sw.members id absent in
      absurd (cc (nothing, known, find-view sw id))
]

-- Removing a known node other than this one answers OK, marks it as departed now and keeps its
-- entry; every other node reads as before.
pub find-remove_member :
    (sw : Swim) (id : NodeId) (now : ℕ) (m : Member) (j : NodeId)
    → is_self sw id ≡ false
    → find sw id ≡ some m
    → let r = remove_member sw id now in
      (r.0 ≡ Result.ok)
      × (find r.1 j ≡ (
          if mem_eq id j
          then some (record m { state = State.left; last_change_ms = now; suspect_ms = 0 })
          else find sw j))
unfolding remove_member
find-remove_member sw id now m j apart known =
    let (i, found) = known-index sw id m known in
    let gone : Member → Member =
      λ x. record x { state = State.left; last_change_ms = now; suspect_ms = 0 } in
    rw (apart, found) (refl, (find-change sw id i m gone j (λ x. refl) found known).0)

-- Suspecting a known node other than this one, when it is alive, answers OK and starts its
-- suspicion now, at its incarnation; when it is not alive, it answers STALE and changes nothing.
-- Every other node reads as before.
pub find-suspect_member :
    (sw : Swim) (id : NodeId) (now : ℕ) (m : Member) (j : NodeId)
    → is_self sw id ≡ false
    → find sw id ≡ some m
    → let r = suspect_member sw id now in
      let lively = m.state == State.alive in
      (r.0 ≡ (if lively then Result.ok else Result.stale))
      × (find r.1 j ≡ (
          if lively && mem_eq id j
          then some (record m { state = State.suspect; suspect_ms = now; last_change_ms = now })
          else find sw j))
unfolding suspect_member
find-suspect_member sw id now m j apart known =
    let (i, found) = known-index sw id m known in
    let accused : Member → Member =
      λ x. record x { state = State.suspect; suspect_ms = now; last_change_ms = now } in
    let changed = find-change sw id i m accused j (λ x. refl) found known in
    let state : (member_at sw i).state ≡ m.state = ap (λ (x : Member). x.state) changed.1 in
    elim (Bool-cases (m.state == State.alive)) [
      | inl lively ↦
          let lively' : ((member_at sw i).state == State.alive) ≡ true = rw state lively in
          rw (apart, found, lively', lively) (refl, changed.0)
      | inr late ↦
          let late' : ((member_at sw i).state == State.alive) ≡ false = rw state late in
          rw (apart, found, late', late) (refl, refl)
    ]
