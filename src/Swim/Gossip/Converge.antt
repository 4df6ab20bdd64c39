-- ===== src/Swim/Gossip/Converge.antt =====
-- Updates that arrive in different orders lead peers to one view.
use libwake.Common.{
  ℕ, ◌≡◌, ◌≢◌, refl, sym, ◌∙◌, ap, Option, none, some, Bool, false, if◌then◌else◌, arith,
  Bool-cases, Option-cases, inl, inr, mem_eq, mem_eq→eq,
}
use libwake.Swim.Types.{NodeId, Member, Update, Swim, Result}
use libwake.Swim.State
use libwake.Swim.State.{state_supersedes}
use libwake.Swim.State.Order.{Standing, resolve, resolve_comm}
use libwake.Swim.Members.{is_self, find_member, add_member}
use libwake.Swim.Gossip.{apply_update, updated, adopt, set_incarnation}
use libwake.Swim.Gossip.Merge.{view, merge, has_room, wins, supersedes-wins, apply_update-Refines}

abbrev pub standing_of : Option Member → Option Standing
standing_of none = none
standing_of (some m) = some (m.state, m.incarnation)

-- What a state holds of a node's health: its state and its incarnation.
abbrev pub standing : Swim → NodeId → Option Standing
standing sw j = standing_of (view sw j)

abbrev pub said : Update → Standing
said u = (u.state, u.incarnation)

abbrev resolve? : Option Standing → Update → Option Standing
resolve? none u = none
resolve? (some s) u = some (resolve s (said u))

resolve?_comm :
    (o : Option Standing) (a b : Update)
    → (a.state ≡ State.left → b.state ≡ State.left → a.incarnation ≡ b.incarnation)
    → resolve? (resolve? o a) b ≡ resolve? (resolve? o b) a
resolve?_comm none a b h = refl
resolve?_comm (some s) a b h = ap some (resolve_comm s (said a) (said b) h)

-- One update about a known node resolves its standing.
merge-resolve :
    (room : Bool) (o : Option Member) (u : Update) (now : ℕ)
    → o ≢ none
    → standing_of (merge room o u now) ≡ resolve? (standing_of o) u
unfolding resolve updated
merge-resolve room none u now h = absurd (h refl)
merge-resolve room (some m) u now h = elim (Bool-cases (wins u m)) [
  | inl over ↦ rw (supersedes-wins u m, over)
  | inr under ↦ rw (supersedes-wins u m, under)
]

self_id-set_incarnation :
    (sw : Swim) (id : NodeId) (inc : ℕ) → (set_incarnation sw id inc).self_id ≡ sw.self_id
unfolding set_incarnation
self_id-set_incarnation sw id inc = elim (Option-cases (find_member sw id)) [
  | inl lost ↦ rw (lost, set_incarnation)
  | inr (i, found) ↦ rw (found, set_incarnation)
]

self_id-adopt :
    (id : NodeId) (inc : ℕ) (r : Result × Swim) → (adopt id inc r).1.self_id ≡ r.1.self_id
unfolding adopt
self_id-adopt id inc (Result.ok, sw) = self_id-set_incarnation sw id inc
self_id-adopt id inc (_, sw) = refl

self_id-add :
    (sw : Swim) (id : NodeId) (addr port now : ℕ)
    → (add_member sw id addr port now).1.self_id ≡ sw.self_id
unfolding add_member
self_id-add sw id addr port now = ground arith

self_id-apply : (sw : Swim) (u : Update) (now : ℕ) → (apply_update sw u now).1.self_id ≡ sw.self_id
unfolding apply_update
self_id-apply sw u now = elim (Bool-cases (is_self sw u.node_id)) [
  | inl own ↦ rw own (ground arith)
  | inr apart ↦ rw apart (elim (Option-cases (find_member sw u.node_id)) [
    | inl new ↦ rw new (
        ground (
          arith,
          self_id-adopt u.node_id u.incarnation (add_member sw u.node_id u.addr u.port now),
          self_id-add sw u.node_id u.addr u.port now,
        ))
    | inr (i, old) ↦ rw old (ground arith)
  ])
]

module _ (sw : Swim) (u : Update) (now : ℕ) (apart : is_self sw u.node_id ≡ false)
    (known : view sw u.node_id ≢ none) where
  pub standing-apply :
      (j : NodeId)
      → standing (apply_update sw u now).1 j
        ≡ (if mem_eq u.node_id j then resolve? (standing sw j) u else standing sw j)
  standing-apply j =
      let r = apply_update-Refines sw u now j apart in
      elim (Bool-cases (mem_eq u.node_id j)) [
        | inl here ↦
            let e = mem_eq→eq u.node_id j here in
            rw (r.reads, here)
              (merge-resolve (has_room sw) (view sw u.node_id) u now known
                ∙ ap (λ (k : NodeId). resolve? (standing sw k) u) e)
        | inr other ↦ rw (r.reads, other)
      ]

  -- What was known stays known.
  known_after : (j : NodeId) → view sw j ≢ none → view (apply_update sw u now).1 j ≢ none
  known_after j h =
      let e = standing-apply j in
      elim (Option-cases (view sw j)) [
        | inl lost ↦ absurd (h lost)
        | inr (m, held) ↦ λ lost. ground (arith, e, lost, held)
      ]

  self_after : (id : NodeId) → is_self (apply_update sw u now).1 id ≡ is_self sw id
  self_after id = ap (λ (own : NodeId). mem_eq own id) (self_id-apply sw u now)

-- Two updates about known nodes other than this one, heard in either order, leave every node with
-- one state and one incarnation, unless both are LEFT updates of one node at different
-- incarnations.
pub updates_commute :
    (sw : Swim) (a b : Update) (now later : ℕ) (j : NodeId)
    → is_self sw a.node_id ≡ false
    → is_self sw b.node_id ≡ false
    → view sw a.node_id ≢ none
    → view sw b.node_id ≢ none
    → (a.node_id ≡ b.node_id
        → a.state ≡ State.left
        → b.state ≡ State.left
        → a.incarnation ≡ b.incarnation)
    → standing (apply_update (apply_update sw a now).1 b later).1 j
      ≡ standing (apply_update (apply_update sw b now).1 a later).1 j
updates_commute sw a b now later j ha hb ka kb compatible =
    let sa = (apply_update sw a now).1 in
    let sb = (apply_update sw b now).1 in
    let first = standing-apply sw a now ha ka in
    let second = standing-apply sw b now hb kb in
    let ab =
      standing-apply sa b later (self_after sw a now ha ka b.node_id ∙ hb)
        (known_after sw a now ha ka b.node_id kb) j in
    let ba =
      standing-apply sb a later (self_after sw b now hb kb a.node_id ∙ ha)
        (known_after sw b now hb kb a.node_id ka) j in
    rw (ab, ba, first j, second j)
      (elim (Bool-cases (mem_eq a.node_id j)) [
        | inr other ↦ rw other refl
        | inl here ↦ elim (Bool-cases (mem_eq b.node_id j)) [
          | inr other ↦ rw (here, other) refl
          | inl there ↦
              let one = mem_eq→eq a.node_id j here ∙ sym (mem_eq→eq b.node_id j there) in
              rw (here, there) (resolve?_comm (standing sw j) a b (compatible one))
        ]
      ])
