-- ===== src/Plumtree/Parts.antt =====
-- The invariant part by part: what a new table of peers, cache or pending table has to meet.
use libwake.Common.{
  ℕ, ◌≡◌, ◌≤◌, ◌∙◌, none, List, length, set, count_if, count_if-set, arith, inl, inr, inc64, inc32,
  length-set,
}
use libwake.Common.Keyed.{Distinct}
use libwake.Common.Slots.{count_if-le_length}
use libwake.Swim.Types.{NodeId}
use libwake.Plumtree.Types.{Link, MsgId, Peer, CacheEntry, Pending, Plumtree}
use libwake.Plumtree.Peers.{peer_id, find_peer, set_link, promote_eager, demote_lazy}
use libwake.Plumtree.Cache.{is_occupied, zero_entry, cache_insert, new_entry}
use libwake.Plumtree.Pending.{is_active, pending_add, pending_remove_msg}
use libwake.Plumtree.Handlers.{}
use libwake.Plumtree.Invariant.{OneEach, IsValid}
use libwake.Plumtree.PeerLaws.{length-set_link, find_peer-set_link, Distinct-set_link}
use libwake.Plumtree.CacheLaws.{cache_insert-cases}
use libwake.Plumtree.PendingLaws.{
  IsTable, pending_add-IsRecorded, pending_remove_msg-IsTable, pending_remove_msg-frame,
  pending_remove_msg-length,
}
use libwake.Plumtree.TickLaws.{}

-- The invariant in its three parts: peers, cache and pending table.
pub with_peers :
    (pt : Plumtree) (peers : List Peer)
    → IsValid pt
    → length peers ≤ pt.config.max_peers
    → Distinct peer_id peers
    → find_peer peers pt.self_id ≡ none
    → IsValid (record pt { peers = peers })
with_peers pt peers v fits d n = record {
  small = v.small;
  some_cache = v.some_cache;
  some_pending = v.some_pending;
  small_pending = v.small_pending;
  fits = fits;
  distinct = d;
  no_self = n;
  slots = v.slots;
  counted = v.counted;
  pending_slots = v.pending_slots;
  pending_counted = v.pending_counted;
  one_each = v.one_each;
}

pub with_cache :
    (pt : Plumtree) (cache : List CacheEntry) (n : ℕ)
    → IsValid pt
    → length cache ≡ pt.config.cache_size
    → n ≡ count_if is_occupied cache
    → IsValid (record pt { cache = cache; cache_count = n })
with_cache pt cache n v l c = record {
  small = v.small;
  some_cache = v.some_cache;
  some_pending = v.some_pending;
  small_pending = v.small_pending;
  fits = v.fits;
  distinct = v.distinct;
  no_self = v.no_self;
  slots = l;
  counted = c;
  pending_slots = v.pending_slots;
  pending_counted = v.pending_counted;
  one_each = v.one_each;
}

pub with_pending :
    (pt : Plumtree) (pending : List Pending) (n : ℕ)
    → IsValid pt
    → length pending ≡ pt.config.pending_size
    → n ≡ count_if is_active pending
    → OneEach pending
    → IsValid (record pt { pending = pending; pending_count = n })
with_pending pt pending n v l c o = record {
  small = v.small;
  some_cache = v.some_cache;
  some_pending = v.some_pending;
  small_pending = v.small_pending;
  fits = v.fits;
  distinct = v.distinct;
  no_self = v.no_self;
  slots = v.slots;
  counted = v.counted;
  pending_slots = l;
  pending_counted = c;
  one_each = o;
}

-- The counters do not matter.
pub with_counters :
    (pt : Plumtree) (received broadcasts duplicates grafts prunes repairs evictions : ℕ)
    → IsValid pt
    → IsValid (record pt {
      messages_received = received;
      messages_broadcast = broadcasts;
      duplicates = duplicates;
      grafts_sent = grafts;
      prunes_sent = prunes;
      repairs = repairs;
      cache_evictions = evictions;
    })
with_counters pt a b c d e f g v = record {
  small = v.small;
  some_cache = v.some_cache;
  some_pending = v.some_pending;
  small_pending = v.small_pending;
  fits = v.fits;
  distinct = v.distinct;
  no_self = v.no_self;
  slots = v.slots;
  counted = v.counted;
  pending_slots = v.pending_slots;
  pending_counted = v.pending_counted;
  one_each = v.one_each;
}

link-IsValid :
    (pt : Plumtree) (link : Link) (id : NodeId) (now : ℕ)
    → IsValid pt
    → IsValid (record pt { peers = set_link link id now pt.peers })
link-IsValid pt link id now v =
    with_peers pt (set_link link id now pt.peers) v
      (omega (arith, v.fits, length-set_link link id now pt.peers))
      (Distinct-set_link link id now pt.peers v.distinct)
      (find_peer-set_link link id now pt.peers pt.self_id ∙ v.no_self)

pub promote_eager-IsValid :
    (pt : Plumtree) (id : NodeId) (now : ℕ) → IsValid pt → IsValid (promote_eager pt id now)
unfolding promote_eager
promote_eager-IsValid pt id now v = link-IsValid pt Link.eager id now v

pub demote_lazy-IsValid :
    (pt : Plumtree) (id : NodeId) (now : ℕ) → IsValid pt → IsValid (demote_lazy pt id now)
unfolding demote_lazy
demote_lazy-IsValid pt id now v = link-IsValid pt Link.lazy id now v

pub cache_insert-IsValid :
    (pt : Plumtree) (id : MsgId) (payload : List ℕ) (now : ℕ)
    → IsValid pt
    → IsValid (cache_insert pt id payload now)
cache_insert-IsValid pt id payload now v =
    let slots = v.slots in
    let counted = v.counted in
    let some_cache = v.some_cache in
    let small = v.small in
    let e = new_entry id payload now in
    elim (cache_insert-cases pt id payload now (omega (arith, slots, some_cache))) [
      | inl (i, path, f) ↦
          let balance = count_if-set is_occupied pt.cache i e zero_entry f.within in
          let free = f.free in
          let few = count_if-le_length is_occupied pt.cache in
          rw path (
            with_cache pt (set pt.cache i e) (inc32 pt.cache_count) v
              (length-set pt.cache i e ∙ slots)
              (ground (arith, balance, free, counted, few, slots, small)))
      | inr (i, path, f) ↦
          let balance = count_if-set is_occupied pt.cache i e zero_entry f.within in
          let busy = f.full i f.within in
          rw path (
            with_counters (record pt { cache = set pt.cache i e }) pt.messages_received
              pt.messages_broadcast pt.duplicates pt.grafts_sent pt.prunes_sent pt.repairs
              (inc64 pt.cache_evictions)
              (with_cache pt (set pt.cache i e) pt.cache_count v (length-set pt.cache i e ∙ slots)
                (ground (arith, balance, busy, counted))))
    ]

pub IsTable-of : (pt : Plumtree) → IsValid pt → IsTable pt
IsTable-of pt v = record {
  some_slots = omega (arith, v.pending_slots, v.some_pending);
  small = omega (arith, v.pending_slots, v.small_pending);
  counted = v.pending_counted;
  one_each = v.one_each;
}

pub pending_add-IsValid :
    (pt : Plumtree) (id : MsgId) (from : NodeId) (now : ℕ)
    → IsValid pt
    → IsValid (pending_add pt id from now)
pending_add-IsValid pt id from now v =
    let after = pending_add pt id from now in
    let r = pending_add-IsRecorded pt id from now (IsTable-of pt v) in
    rw r.frame (
      with_pending pt after.pending after.pending_count v (r.size ∙ v.pending_slots) r.counted
        r.one_each)

pub pending_remove_msg-IsValid :
    (pt : Plumtree) (id : MsgId) → IsValid pt → IsValid (pending_remove_msg pt id)
pending_remove_msg-IsValid pt id v =
    let after = pending_remove_msg pt id in
    let t = pending_remove_msg-IsTable pt id (IsTable-of pt v) in
    rw (pending_remove_msg-frame pt id) (
      with_pending pt after.pending after.pending_count v
        (pending_remove_msg-length pt id ∙ v.pending_slots) t.counted t.one_each)
