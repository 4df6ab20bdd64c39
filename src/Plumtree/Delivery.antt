-- ===== src/Plumtree/Delivery.antt =====
-- Received messages: what is delivered, passed on and remembered.
use libwake.Common.{
  ℕ, ◌≡◌, ◌<◌, refl, ◌∙◌, ap, true, false, none, some, List, [], ◌∷◌, ◌++◌, length, get_or, take,
  arith, Option-cases, inl, inr, inc64, get_or-set_self,
}
use libwake.Common.Slots.{find_first, find_first-set_new}
use libwake.Swim.Types.{NodeId}
use libwake.Plumtree.Types.{Link, MsgType, MsgId, CacheEntry, Plumtree}
use libwake.Plumtree.Peers.{set_link, promote_eager, demote_lazy}
use libwake.Plumtree.Cache.{
  zero_entry, holds, cache_find, cache_insert, new_entry, has_msg, is_free, max_payload,
}
use libwake.Plumtree.Pending.{pending_remove_msg, pending_find}
use libwake.Plumtree.Output.{Output, Hooks, when, push_others}
use libwake.Plumtree.Handlers.{recv_duplicate, recv_new, recv_gossip, recv_graft}
use libwake.Plumtree.Invariant.{IsValid, OneEach}
use libwake.Plumtree.CacheLaws.{cache_insert-cases, cache_insert-effect, holds_self}
use libwake.Plumtree.PendingLaws.{pending_remove_msg-frame, pending_remove_msg-none}

-- The state that a new message leaves: stored, settled, and its sender eager.
abbrev counted : Plumtree → Plumtree
counted pt = record pt { messages_received = inc64 pt.messages_received }

pub cached-none : (pt : Plumtree) (id : MsgId) → has_msg pt id ≡ false → cache_find pt id ≡ none
cached-none pt id h = elim (Option-cases (cache_find pt id)) [
  | inl e ↦ e
  | inr (i, e) ↦ absurd (ground (arith, h, e))
]

cached-some :
    (pt : Plumtree) (id : MsgId) → has_msg pt id ≡ true → (i : ℕ) × (cache_find pt id ≡ some i)
cached-some pt id h = elim (Option-cases (cache_find pt id)) [
  | inl e ↦ absurd (ground (arith, h, e))
  | inr found ↦ found
]

-- A message that the cache holds: the sender alone is told, to prune, and becomes lazy; nothing is
-- delivered or stored.
pub recv_gossip-seen :
    (pt : Plumtree) (hooks : Hooks) (from : NodeId) (id : MsgId) (payload : List ℕ) (now : ℕ)
    → has_msg pt id ≡ true
    → let r = recv_gossip pt hooks from id payload now in
      (r.0 ≡ false)
      × (r.2 ≡ when hooks.can_send (Output.send MsgType.prune from id [] ∷ []))
      × (r.1.peers ≡ set_link Link.lazy from now pt.peers)
      × (r.1.cache ≡ pt.cache)
      × (r.1.pending ≡ pt.pending)
unfolding recv_gossip recv_duplicate demote_lazy
recv_gossip-seen pt hooks from id payload now h =
    let (i, seen) = cached-some pt id h in rw (seen, recv_gossip) (refl, refl, refl, refl, refl)

-- After the removal of the pending slot only the table has changed.
settled-cache : (pt : Plumtree) (id : MsgId) → (pending_remove_msg pt id).cache ≡ pt.cache
settled-cache pt id = ap (λ (q : Plumtree). q.cache) (pending_remove_msg-frame pt id)

settled-peers : (pt : Plumtree) (id : MsgId) → (pending_remove_msg pt id).peers ≡ pt.peers
settled-peers pt id = ap (λ (q : Plumtree). q.peers) (pending_remove_msg-frame pt id)

-- Storing a message changes the cache and its counters.
pub stored-frame :
    (pt : Plumtree) (id : MsgId) (payload : List ℕ) (now : ℕ)
    → let after = cache_insert pt id payload now in
      (after.peers ≡ pt.peers) × (after.pending ≡ pt.pending) × (after.config ≡ pt.config)
unfolding cache_insert
stored-frame pt id payload now = elim (Option-cases (find_first is_free pt.cache)) [
  | inl e ↦ rw (e, cache_insert) (refl, refl, refl)
  | inr (i, e) ↦ rw (e, cache_insert) (refl, refl, refl)
]

stored-counted :
    (pt : Plumtree) (id : MsgId) (payload : List ℕ) (now : ℕ)
    → (cache_insert (counted pt) id payload now).cache ≡ (cache_insert pt id payload now).cache
unfolding cache_insert
stored-counted pt id payload now = elim (Option-cases (find_first is_free pt.cache)) [
  | inl e ↦ rw (e, cache_insert) refl
  | inr (i, e) ↦ rw (e, cache_insert) refl
]

-- A message that is not in the cache of a valid state: it is delivered first, then passed on to every
-- peer but the sender, who becomes eager; it is stored, and no slot awaits it any more.
pub recv_gossip-new :
    (pt : Plumtree) (hooks : Hooks) (from : NodeId) (id : MsgId) (payload : List ℕ) (now : ℕ)
    → IsValid pt
    → has_msg pt id ≡ false
    → let r = recv_gossip pt hooks from id payload now in
      let peers = set_link Link.eager from now pt.peers in
      (r.0 ≡ true)
      × (r.2
          ≡ when hooks.can_deliver (Output.deliver id payload from ∷ [])
            ++ when hooks.can_send (push_others from peers id payload))
      × (r.1.peers ≡ peers)
      × (r.1.cache ≡ (cache_insert pt id payload now).cache)
      × (has_msg r.1 id ≡ true)
      × (pending_find r.1 id ≡ none)
unfolding recv_gossip recv_new promote_eager
recv_gossip-new pt hooks from id payload now v h =
    let c = counted pt in
    let new : cache_find c id ≡ none = cached-none pt id h in
    let stored = cache_insert c id payload now in
    let frame = stored-frame c id payload now in
    let peers : (pending_remove_msg stored id).peers ≡ pt.peers =
      settled-peers stored id ∙ frame.0 in
    let cache : (pending_remove_msg stored id).cache ≡ (cache_insert pt id payload now).cache =
      settled-cache stored id ∙ stored-counted pt id payload now in
    let one_each : OneEach stored.pending = rw (frame.1) v.one_each in
    let room : 0 < length pt.cache = omega (arith, v.slots, v.some_cache) in
    let known = (cache_insert-effect pt id payload now room).0 in
    rw (new, recv_gossip, peers, cache)
      (refl, refl, refl, refl, known, pending_remove_msg-none stored id one_each)

-- Where a new message is stored.
stored_at :
    (pt : Plumtree) (id : MsgId) (payload : List ℕ) (now : ℕ)
    → IsValid pt
    → has_msg pt id ≡ false
    → let cs = (cache_insert pt id payload now).cache in
      (i : ℕ) × (get_or cs i zero_entry ≡ new_entry id payload now)
      × (find_first (holds id) cs ≡ some i)
stored_at pt id payload now v h =
    let e = new_entry id payload now in
    let room : 0 < length pt.cache = omega (arith, v.slots, v.some_cache) in
    let unknown = cached-none pt id h in
    elim (cache_insert-cases pt id payload now room) [
      | inl (i, path, f) ↦ rw path (
        i,
        get_or-set_self pt.cache i e zero_entry f.within,
        find_first-set_new (holds id) pt.cache i e unknown (holds_self id payload now) f.within,
      )
      | inr (i, path, f) ↦ rw path (
        i,
        get_or-set_self pt.cache i e zero_entry f.within,
        find_first-set_new (holds id) pt.cache i e unknown (holds_self id payload now) f.within,
      )
    ]

answer_of :
    (pt : Plumtree) (hooks : Hooks) (asking : NodeId) (id : MsgId) (later i : ℕ)
    → cache_find pt id ≡ some i
    → (recv_graft pt hooks asking id later).1
      ≡ when hooks.can_send
          (Output.send MsgType.gossip asking id (get_or pt.cache i zero_entry).payload ∷ [])
unfolding recv_graft promote_eager
answer_of pt hooks asking id later i at = rw (at, recv_graft) refl

-- A GRAFT for a message that has just been received is answered with what was stored of it, the
-- first 256 bytes of its payload, and makes the asking peer eager.
pub recv_graft-answers :
    (pt : Plumtree) (hooks : Hooks) (from asking : NodeId) (id : MsgId) (payload : List ℕ)
    (now later : ℕ)
    → IsValid pt
    → has_msg pt id ≡ false
    → let after = (recv_gossip pt hooks from id payload now).1 in
      let answer = recv_graft after hooks asking id later in
      (answer.1
        ≡ when hooks.can_send
            (Output.send MsgType.gossip asking id (take max_payload payload) ∷ []))
      × (answer.0.peers ≡ set_link Link.eager asking later after.peers)
unfolding recv_graft promote_eager
recv_graft-answers pt hooks from asking id payload now later v h =
    let after = (recv_gossip pt hooks from id payload now).1 in
    let (told, out, peers, cache, known, free) = recv_gossip-new pt hooks from id payload now v h in
    let (i, e, found) = stored_at pt id payload now v h in
    let at : cache_find after id ≡ some i = ap (find_first (holds id)) cache ∙ found in
    let entry : get_or after.cache i zero_entry ≡ new_entry id payload now =
      ap (λ (cs : List CacheEntry). get_or cs i zero_entry) cache ∙ e in
    (
      answer_of after hooks asking id later i at
          ∙ ap
              (λ (x : CacheEntry).
                when hooks.can_send (Output.send MsgType.gossip asking id x.payload ∷ []))
              entry,
      refl,
    )
