-- ===== src/Swim/Queue.antt =====
-- `queue_update` of src/wake_swim.c: the bounded dissemination queue, one entry for a node.
pub mod Eviction
pub mod Laws
use libwake.Common.{
  ℕ, suc, ◌+◌, Bool, Option, none, some, List, [], ◌∷◌, ◌++◌, ltb, if◌then◌else◌, length, set,
  inc64,
}
use libwake.Common.Keyed.{find_index}
use libwake.Swim.Types.{NodeId, Member, Update, Swim}

abbrev pub node_of : Update → NodeId
node_of u = u.node_id

-- what each of the three branches writes into the entry
unfoldable pub update_of : Member → Update
update_of m = record {
  node_id = m.node_id;
  addr = m.addr;
  port = m.port;
  state = m.state;
  incarnation = m.incarnation;
  piggyback_count = 0;
}

-- The scan for the entry sent most often: `i` is the index of the head of the list.
pub worst_from : List Update → ℕ → ℕ → ℕ → ℕ
worst_from [] i worst worst_pb = worst
worst_from (u ∷ us) i worst worst_pb =
    let more = ltb worst_pb u.piggyback_count in
    worst_from us (i + 1) (if more then i else worst) (if more then u.piggyback_count else worst_pb)

pub worst_index : List Update → ℕ
unfolding worst_from
worst_index [] = 0
worst_index (u ∷ us) = worst_from us 1 0 u.piggyback_count

-- The entry of this node is replaced; else there is room; else the worst entry is evicted.
pub enqueue : ℕ → List Update → Option ℕ → Update → List Update
unfolding worst_index
enqueue cap us (some i) u = set us i u
enqueue cap us none u = if ltb (length us) cap then us ++ u ∷ [] else set us (worst_index us) u

-- a replacement is not counted
pub queued_count : Option ℕ → ℕ → ℕ
queued_count (some i) n = n
queued_count none n = inc64 n

unfoldable pub queue_update : Swim → Member → Swim
unfolding update_of enqueue queued_count
queue_update sw m =
    let found = find_index node_of sw.updates m.node_id in
    record sw {
      updates = enqueue sw.config.update_queue_size sw.updates found (update_of m);
      updates_queued = queued_count found sw.updates_queued;
    }
