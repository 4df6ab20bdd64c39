-- ===== src/Plumtree/Recovery.antt =====
-- The way from an IHAVE to the message itself: IHAVE, tick, GRAFT, GOSSIP.
use libwake.Common.{
  ℕ, ◌+◌, ◌≡◌, ◌≤◌, ◌<◌, ◌^◌, refl, ◌∙◌, ap, true, false, Option, none, some, List, [], ◌∷◌, ◌++◌,
  get_or, map, take, arith, Bool-cases, inl, inr, leb, ltb, sub64,
}
use libwake.Common.Slots.{find_first, find_first-hit}
use libwake.Swim.Types.{NodeId}
use libwake.Plumtree.Types.{Link, MsgType, MsgId, Pending, CacheEntry, Plumtree}
use libwake.Plumtree.Cache.{cache_find, has_msg, holds, max_payload}
use libwake.Plumtree.Pending.{zero_pending, awaits, pending_find}
use libwake.Plumtree.Output.{Output, Hooks, when, push_others}
use libwake.Plumtree.Peers.{set_link}
use libwake.Plumtree.Handlers.{recv_ihave, recv_gossip, recv_graft}
use libwake.Plumtree.Tick.{is_late, tick}
use libwake.Plumtree.Invariant.{IsValid}
use libwake.Plumtree.PendingLaws.{IsRecorded, pending_add-IsRecorded}
use libwake.Plumtree.Parts.{IsTable-of}
use libwake.Plumtree.TickLaws.{graft_for, spoil}
use libwake.Plumtree.Delivery.{cached-none, recv_gossip-new, recv_graft-answers}
use libwake.Plumtree.Preserve.{recv_ihave-IsValid, tick-IsValid}
use libwake.Plumtree.Repair.{fresh_only, tick-sweeps, asked_at, settled-none}

-- The timer of a slot has run out.
late_enough :
    (timeout now later : ℕ)
    → now + timeout ≤ later
    → later < 2 ^ 64
    → leb timeout (sub64 later now) ≡ true
late_enough timeout now later h l = ground arith

-- An IHAVE for a message that is not in the cache is recorded.
pub recorded :
    (pt : Plumtree) (from : NodeId) (id : MsgId) (now : ℕ)
    → IsValid pt
    → has_msg pt id ≡ false
    → IsRecorded pt (recv_ihave pt from id now) id from now
unfolding recv_ihave
recorded pt from id now v h =
    let unknown = cached-none pt id h in
    rw (unknown, recv_ihave) (pending_add-IsRecorded pt id from now (IsTable-of pt v))

-- What a sweep of the cache leaves held nothing before that it holds now.
not_held :
    (ttl now : ℕ) (es : List CacheEntry) (id : MsgId)
    → find_first (holds id) es ≡ none
    → find_first (holds id) (map (spoil ttl now) es) ≡ none
not_held ttl now [] id h = refl
not_held ttl now (e ∷ es) id h = ground (arith, not_held ttl now es id)

not_held_fresh :
    (pt : Plumtree) (now : ℕ) (id : MsgId)
    → cache_find pt id ≡ none
    → find_first (holds id) (fresh_only pt now) ≡ none
not_held_fresh pt now id h = elim (Bool-cases (ltb 0 pt.config.cache_ttl_ms)) [
  | inl on ↦ rw on (not_held pt.config.cache_ttl_ms now pt.cache id h)
  | inr off ↦ rw off h
]

module _ (pt : Plumtree) (from : NodeId) (id : MsgId) (now later : ℕ) (v : IsValid pt)
    (unknown : has_msg pt id ≡ false) (passed : now + pt.config.lazy_timeout_ms ≤ later)
    (fits : later < 2 ^ 64) where
  abbrev asked : Plumtree
  asked = recv_ihave pt from id now

  asked-IsValid : IsValid asked
  asked-IsValid = recv_ihave-IsValid pt from id now v

  asked-recorded : IsRecorded pt asked id from now
  asked-recorded = recorded pt from id now v unknown

  asked-late :
      is_late asked.config.lazy_timeout_ms later
        (get_or asked.pending asked-recorded.slot zero_pending)
      ≡ true
  asked-late =
      let r = asked-recorded in
      let same : asked.config ≡ pt.config = ap (λ (q : Plumtree). q.config) r.frame in
      rw (r.entry, same) (late_enough pt.config.lazy_timeout_ms now later passed fits)

  asked-unknown : has_msg asked id ≡ false
  asked-unknown = ap (λ (q : Plumtree). has_msg q id) asked-recorded.frame ∙ unknown

  swept-unknown : (hooks : Hooks) → has_msg (tick asked hooks later).1 id ≡ false
  swept-unknown hooks =
      let (number, out, slots, peers, cache) = tick-sweeps asked hooks later in
      let none_held = not_held_fresh asked later id (cached-none asked id asked-unknown) in
      ap (λ (o : Option ℕ). elim o [ none ↦ false | some i ↦ true ])
        (ap (find_first (holds id)) cache ∙ none_held)

-- An announced message that does not come within the timeout is asked for: if an IHAVE comes at `now` for a
-- message that is not in the cache, the tick at any time `later` from `now` plus the timeout on sends a
-- GRAFT for it to the node that announced it, and no slot awaits the message afterwards.
pub ihave-leads-to-graft :
    (pt : Plumtree) (hooks : Hooks) (from : NodeId) (id : MsgId) (now later : ℕ)
    → IsValid pt
    → has_msg pt id ≡ false
    → now + pt.config.lazy_timeout_ms ≤ later
    → later < 2 ^ 64
    → hooks.can_send ≡ true
    → let r = tick (recv_ihave pt from id now) hooks later in
      ((before after : List Output) × (r.2
          ≡ before ++ Output.send MsgType.graft from id [] ∷ after))
      × (pending_find r.1 id ≡ none)
ihave-leads-to-graft pt hooks from id now later v unknown passed fits can =
    let q = recv_ihave pt from id now in
    let r = asked-recorded pt from id now later v unknown passed fits in
    let late = asked-late pt from id now later v unknown passed fits in
    let hit = find_first-hit (awaits id) q.pending r.slot zero_pending r.found in
    let (number, out, slots, peers, cache) = tick-sweeps q hooks later in
    let (before, after, e) =
      asked_at (is_late q.config.lazy_timeout_ms later) q.pending r.slot hit.0 late in
    (
      (
        before,
        after,
        out ∙ rw can (e ∙ ap (λ (p : Pending). before ++ graft_for p ∷ after) r.entry),
      ),
      ap (find_first (awaits id)) slots
          ∙ settled-none q.config.lazy_timeout_ms later q.pending id r.slot r.one_each r.found late,
    )

-- The way of a message that one node has received and another has only heard of, both in valid states
-- that did not hold it and with both callbacks, by an IHAVE at `now` that no GOSSIP follows: the other's tick at `later` sends a GRAFT, the first answers it with a GOSSIP of
-- the first 256 bytes of the payload, and on this GOSSIP the other delivers the message, has it in its
-- cache, and awaits it no more.
pub lost-is-recovered :
    (source pt : Plumtree) (hooks : Hooks) (origin : NodeId) (id : MsgId) (payload : List ℕ)
    (first now later again : ℕ)
    → IsValid source
    → IsValid pt
    → has_msg source id ≡ false
    → has_msg pt id ≡ false
    → now + pt.config.lazy_timeout_ms ≤ later
    → later < 2 ^ 64
    → hooks.can_send ≡ true
    → hooks.can_deliver ≡ true
    → let holder = (recv_gossip source hooks origin id payload first).1 in
      let asking = tick (recv_ihave pt source.self_id id now) hooks later in
      let answer = recv_graft holder hooks pt.self_id id later in
      let stored = take max_payload payload in
      let end = recv_gossip asking.1 hooks source.self_id id stored again in
      ((before after : List Output) × (asking.2
          ≡ before ++ Output.send MsgType.graft source.self_id id [] ∷ after))
      × (answer.1 ≡ Output.send MsgType.gossip pt.self_id id stored ∷ [])
      × ((rest : List Output) × (end.2 ≡ Output.deliver id stored source.self_id ∷ rest))
      × (has_msg end.1 id ≡ true)
      × (pending_find end.1 id ≡ none)
lost-is-recovered source pt hooks origin id payload first now later again vs v hs h passed fits send
      deliver =
    let asking = (tick (recv_ihave pt source.self_id id now) hooks later).1 in
    let stored = take max_payload payload in
    let (asked, settled) =
      ihave-leads-to-graft pt hooks source.self_id id now later v h passed fits send in
    let answers = recv_graft-answers source hooks origin pt.self_id id payload first later vs hs in
    let va : IsValid asking =
      tick-IsValid (recv_ihave pt source.self_id id now) hooks later
        (recv_ihave-IsValid pt source.self_id id now v) in
    let (new, out, peers, cache, known, free) =
      recv_gossip-new asking hooks source.self_id id stored again va
        (swept-unknown pt source.self_id id now later v h passed fits hooks) in
    (
      asked,
      answers.0 ∙ rw send refl,
      (
        when hooks.can_send (
            push_others source.self_id (set_link Link.eager source.self_id again asking.peers) id
              stored),
        out ∙ rw deliver refl,
      ),
      known,
      free,
    )
