-- ===== src/Plumtree/Restart.antt =====
-- A repeated IHAVE.
use libwake.Common.{
  ℕ, zero, suc, ◌+◌, ◌≡◌, ◌≤◌, ◌<◌, ◌^◌, refl, sym, ◌∙◌, ap, Bool, true, false, none, some, List,
  [], ◌∷◌, get_or, map, keep, count_if, mem_eq→eq, arith, Bool-cases, inl, inr, leb, sub64, mem_eq,
}
use libwake.Common.Slots.{find_first}
use libwake.Swim.Types.{NodeId}
use libwake.Plumtree.Types.{MsgType, MsgId, Pending, Plumtree}
use libwake.Plumtree.Cache.{has_msg}
use libwake.Plumtree.Pending.{zero_pending, awaits}
use libwake.Plumtree.Output.{Output, Hooks}
use libwake.Plumtree.Handlers.{recv_ihave}
use libwake.Plumtree.Tick.{is_late, tick}
use libwake.Plumtree.Invariant.{IsValid, OneEach}
use libwake.Plumtree.TickLaws.{graft_for}
use libwake.Plumtree.Preserve.{recv_ihave-IsValid}
use libwake.Plumtree.Repair.{tick-sweeps}
use libwake.Plumtree.Recovery.{recorded}

-- Is this a GRAFT for the message?
abbrev pub grafts : MsgId → Output → Bool
grafts id (Output.send MsgType.graft to i payload) = mem_eq i id
grafts id (Output.send MsgType.gossip to i payload) = false
grafts id (Output.send MsgType.ihave to i payload) = false
grafts id (Output.send MsgType.prune to i payload) = false
grafts id (Output.deliver i payload from) = false

unasked :
    (timeout now : ℕ) (ps : List Pending) (id : MsgId)
    → find_first (awaits id) ps ≡ none
    → count_if (grafts id) (map graft_for (keep (is_late timeout now) ps)) ≡ 0
unasked timeout now [] id h = refl
unasked timeout now (p ∷ ps) id h = ground (arith, unasked timeout now ps id)

early_unasked :
    (timeout now : ℕ) (ps : List Pending) (id : MsgId) (i : ℕ)
    → OneEach ps
    → find_first (awaits id) ps ≡ some i
    → is_late timeout now (get_or ps i zero_pending) ≡ false
    → count_if (grafts id) (map graft_for (keep (is_late timeout now) ps)) ≡ 0
early_unasked timeout now [] id i o f h = refl
early_unasked timeout now (p ∷ ps) id zero (n, o) f h =
    let active : p.active ≡ true = ground (arith, f) in
    let here : mem_eq p.msg_id id ≡ true = ground (arith, f) in
    let rest : find_first (awaits id) ps ≡ none =
      ap (λ (m : MsgId). find_first (awaits m) ps) (sym (mem_eq→eq p.msg_id id here)) ∙ n active in
    rw h (unasked timeout now ps id rest)
early_unasked timeout now (p ∷ ps) id (suc i) (n, o) f h =
    ground (arith, early_unasked timeout now ps id i o)

too_early :
    (timeout now later : ℕ)
    → now ≤ later
    → later < now + timeout
    → later < 2 ^ 64
    → leb timeout (sub64 later now) ≡ false
too_early timeout now later after h l = ground arith

-- A further IHAVE for a message that a valid state does not hold replaces the announcing node and restarts
-- the timer: within the timeout of the last announcement no tick asks for the message, however long ago the first one was.
pub ihave-restarts :
    (pt : Plumtree) (hooks : Hooks) (from other : NodeId) (id : MsgId) (now again later : ℕ)
    → IsValid pt
    → has_msg pt id ≡ false
    → again ≤ later
    → later < again + pt.config.lazy_timeout_ms
    → later < 2 ^ 64
    → count_if
        (grafts id)
        (tick (recv_ihave (recv_ihave pt from id now) other id again) hooks later).2
      ≡ 0
ihave-restarts pt hooks from other id now again later v unknown order early fits =
    let first = recv_ihave pt from id now in
    let q = recv_ihave first other id again in
    let r0 = recorded pt from id now v unknown in
    let unknown1 : has_msg first id ≡ false =
      ap (λ (s : Plumtree). has_msg s id) r0.frame ∙ unknown in
    let r = recorded first other id again (recv_ihave-IsValid pt from id now v) unknown1 in
    let same : q.config ≡ pt.config =
      ap (λ (s : Plumtree). s.config) r.frame ∙ ap (λ (s : Plumtree). s.config) r0.frame in
    let waiting : is_late q.config.lazy_timeout_ms later (get_or q.pending r.slot zero_pending)
        ≡ false =
      rw (r.entry, same) (too_early pt.config.lazy_timeout_ms again later order early fits) in
    let silent =
      early_unasked q.config.lazy_timeout_ms later q.pending id r.slot r.one_each r.found waiting in
    let (number, out, slots, peers, cache) = tick-sweeps q hooks later in
    ap (count_if (grafts id)) out
    ∙ elim (Bool-cases hooks.can_send) [ inl on ↦ rw on silent | inr off ↦ rw off refl ]
