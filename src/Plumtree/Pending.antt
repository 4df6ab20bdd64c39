-- ===== src/Plumtree/Pending.antt =====
-- Pending IHAVEs: pending_find, pending_add, pending_remove_msg.
use libwake.Common.{
  ℕ, ◌-◌, Bool, true, false, Option, none, some, [], ◌&&◌, not, get_or, set, inc32,
}
use libwake.Common.Slots.{find_first, oldest_from}
use libwake.Swim.Types.{NodeId}
use libwake.Plumtree.Types.{MsgId, msg_id_eq, Pending, Plumtree}

abbrev pub zero_pending : Pending
zero_pending = record { msg_id = []; from_id = []; received_ms = 0; active = false }

abbrev pub is_active : Pending → Bool
is_active p = p.active

abbrev pub is_idle : Pending → Bool
is_idle p = not p.active

abbrev pub stamped : Pending → ℕ
stamped p = p.received_ms

abbrev pub awaits : MsgId → Pending → Bool
awaits id p = p.active && msg_id_eq p.msg_id id

abbrev pub pending_find : Plumtree → MsgId → Option ℕ
pending_find pt id = find_first (awaits id) pt.pending

abbrev pub new_pending : MsgId → NodeId → ℕ → Pending
new_pending id from now = record { msg_id = id; from_id = from; received_ms = now; active = true }

abbrev pub pending_at : Plumtree → ℕ → Pending
pending_at pt i = get_or pt.pending i zero_pending

unfoldable pub pending_add : Plumtree → MsgId → NodeId → ℕ → Plumtree
pending_add pt id from now = elim (pending_find pt id) [
  | some i ↦ record pt {
    pending = set pt.pending i (record (pending_at pt i) { from_id = from; received_ms = now });
  }
  | none ↦ elim (find_first is_idle pt.pending) [
    | some i ↦ record pt {
      pending = set pt.pending i (new_pending id from now);
      pending_count = inc32 pt.pending_count;
    }
    | none ↦ elim (oldest_from is_active stamped pt.pending 0 none) [
      | none ↦ pt
      | some (i, ms) ↦ record pt { pending = set pt.pending i (new_pending id from now) }
    ]
  ]
]

-- `if (count > 0) count--`
abbrev pub dec : ℕ → ℕ
dec n = n - 1

unfoldable pub pending_remove_msg : Plumtree → MsgId → Plumtree
pending_remove_msg pt id = elim (pending_find pt id) [
  | none ↦ pt
  | some i ↦ record pt {
    pending = set pt.pending i (record (pending_at pt i) { active = false });
    pending_count = dec pt.pending_count;
  }
]
