-- ===== src/Plumtree/Calls.antt =====
-- The calls that a host makes of src/wake_plumtree.c, in any order, as a transition system.
use libwake.Common.{
  ℕ, zero, suc, Bool, false, ◌≡◌, ◌<◌, ◌^◌, refl, ap, sym, Option, none, some, List, length,
  replicate, count_if, ◌&&◌, arith, Bool-cases, inl, inr,
}
use libwake.Swim.Types.{NodeId}
use libwake.Plumtree.Types.{MsgId, Config, Plumtree}
use libwake.Plumtree.Cache.{zero_entry, is_occupied}
use libwake.Plumtree.Pending.{zero_pending, is_active}
use libwake.Plumtree.Output.{Hooks}
use libwake.Plumtree.Handlers.{recv_prune}
use libwake.Plumtree.Lifecycle.{
  Allocation, initial, default_config, with_defaults, config_or_default, create, reset,
}
use libwake.Plumtree.Invariant.{IsValid, OneEach}
use libwake.Plumtree.Parts.{demote_lazy-IsValid}
use libwake.Plumtree.Preserve.{
  add_peer-IsValid, remove_peer-IsValid, broadcast-IsValid, recv_gossip-IsValid, recv_ihave-IsValid,
  recv_graft-IsValid, tick-IsValid,
}
use libwake.Plumtree.Api
use libwake.Plumtree.Api.{Handle}

none_counted :
    {A : Type 0} (p : A → Bool) (n : ℕ) (x : A) → p x ≡ false → count_if p (replicate n x) ≡ 0
none_counted p zero x h = refl
none_counted p (suc n) x h = rw h (none_counted p n x h)

length-replicate : {A : Type 0} (n : ℕ) (x : A) → length (replicate n x) ≡ n
length-replicate zero x = refl
length-replicate (suc n) x = ap suc (length-replicate n x)

OneEach-replicate : (n : ℕ) → OneEach (replicate n zero_pending)
OneEach-replicate zero = tt
OneEach-replicate (suc n) = ((λ h. absurd (ground (arith, h))), OneEach-replicate n)

-- The sizes of the tables as the integers of the configuration hold them.
pub record IsSized (c : Config) : Type 0 where
  pub cache : 0 < c.cache_size
  pub small : c.cache_size < 2 ^ 16
  pub pending : 0 < c.pending_size
  pub small_pending : c.pending_size < 2 ^ 16

initial-IsValid : (c : Config) (id : NodeId) → IsSized c → IsValid (initial c id)
unfolding initial
initial-IsValid c id s = record {
  small = s.small;
  some_cache = s.cache;
  some_pending = s.pending;
  small_pending = s.small_pending;
  fits = omega arith;
  distinct = tt;
  no_self = refl;
  slots = length-replicate c.cache_size zero_entry;
  counted = sym (none_counted is_occupied c.cache_size zero_entry refl);
  pending_slots = length-replicate c.pending_size zero_pending;
  pending_counted = sym (none_counted is_active c.pending_size zero_pending refl);
  one_each = OneEach-replicate c.pending_size;
}

reset-IsValid : (pt : Plumtree) → IsValid pt → IsValid (reset pt)
unfolding reset
reset-IsValid pt v = initial-IsValid pt.config pt.self_id (record {
  cache = v.some_cache;
  small = v.small;
  pending = v.some_pending;
  small_pending = v.small_pending;
})

-- A handle that is not null holds a valid state.
abbrev pub IsSound : Handle → Type 0
IsSound none = Unit
IsSound (some pt) = IsValid pt

-- Every call that changes a state, with any arguments, null ones included.
pub data Step : Handle → Handle → Type 0 where
  add : (h : Handle) (id : Option NodeId) (now : ℕ) → Step h (Api.add_peer h id now).1
  remove : (h : Handle) (id : Option NodeId) → Step h (Api.remove_peer h id).1
  publish :
      (h : Handle) (hooks : Hooks) (id : Option MsgId) (payload : Option (List ℕ)) (now : ℕ)
      → Step h (Api.broadcast h hooks id payload now).0
  gossip :
      (h : Handle) (hooks : Hooks) (from : Option NodeId) (id : Option MsgId)
      (payload : Option (List ℕ)) (now : ℕ)
      → Step h (Api.recv_gossip h hooks from id payload now).1
  ihave :
      (h : Handle) (from : Option NodeId) (id : Option MsgId) (now : ℕ)
      → Step h (Api.recv_ihave h from id now)
  graft :
      (h : Handle) (hooks : Hooks) (from : Option NodeId) (id : Option MsgId) (now : ℕ)
      → Step h (Api.recv_graft h hooks from id now).0
  prune : (h : Handle) (from : Option NodeId) (now : ℕ) → Step h (Api.recv_prune h from now)
  tick : (h : Handle) (hooks : Hooks) (now : ℕ) → Step h (Api.tick h hooks now).1
  restart : (h : Handle) → Step h (Api.reset h)

pub data Reach (start : Handle) : Handle → Type 0 where
  here : Reach start start
  next : {s t : Handle} → Reach start s → Step s t → Reach start t

recv_prune-IsValid :
    (pt : Plumtree) (from : NodeId) (now : ℕ) → IsValid pt → IsValid (recv_prune pt from now)
unfolding recv_prune
recv_prune-IsValid pt from now v = demote_lazy-IsValid pt from now v

Step-IsSound : {s t : Handle} → Step s t → IsSound s → IsSound t
unfolding Api.add_peer Api.remove_peer Api.broadcast Api.recv_gossip Api.recv_ihave Api.recv_graft
    Api.recv_prune Api.tick Api.reset
Step-IsSound (add none id now) v = tt
Step-IsSound (add (some pt) none now) v = v
Step-IsSound (add (some pt) (some id) now) v = add_peer-IsValid pt id now v
Step-IsSound (remove none id) v = tt
Step-IsSound (remove (some pt) none) v = v
Step-IsSound (remove (some pt) (some id)) v = remove_peer-IsValid pt id v
Step-IsSound (publish none hooks id payload now) v = tt
Step-IsSound (publish (some pt) hooks none payload now) v = v
Step-IsSound (publish (some pt) hooks (some id) none now) v = v
Step-IsSound (publish (some pt) hooks (some id) (some payload) now) v =
    broadcast-IsValid pt hooks id payload now v
Step-IsSound (gossip none hooks from id payload now) v = tt
Step-IsSound (gossip (some pt) hooks none id payload now) v = v
Step-IsSound (gossip (some pt) hooks (some from) none payload now) v = v
Step-IsSound (gossip (some pt) hooks (some from) (some id) none now) v = v
Step-IsSound (gossip (some pt) hooks (some from) (some id) (some payload) now) v =
    recv_gossip-IsValid pt hooks from id payload now v
Step-IsSound (ihave none from id now) v = tt
Step-IsSound (ihave (some pt) none id now) v = v
Step-IsSound (ihave (some pt) (some from) none now) v = v
Step-IsSound (ihave (some pt) (some from) (some id) now) v = recv_ihave-IsValid pt from id now v
Step-IsSound (graft none hooks from id now) v = tt
Step-IsSound (graft (some pt) hooks none id now) v = v
Step-IsSound (graft (some pt) hooks (some from) none now) v = v
Step-IsSound (graft (some pt) hooks (some from) (some id) now) v =
    recv_graft-IsValid pt hooks from id now v
Step-IsSound (prune none from now) v = tt
Step-IsSound (prune (some pt) none now) v = v
Step-IsSound (prune (some pt) (some from) now) v = recv_prune-IsValid pt from now v
Step-IsSound (tick none hooks now) v = tt
Step-IsSound (tick (some pt) hooks now) v = tick-IsValid pt hooks now v
Step-IsSound (restart none) v = tt
Step-IsSound (restart (some pt)) v = reset-IsValid pt v

Reach-IsSound : {s t : Handle} → IsSound s → Reach s t → IsSound t
Reach-IsSound v here = v
Reach-IsSound v (next r st) = Step-IsSound st (Reach-IsSound v r)

-- The configuration as its integers hold it.
pub record IsConfig (c : Config) : Type 0 where
  pub small : c.cache_size < 2 ^ 16
  pub small_pending : c.pending_size < 2 ^ 16

with_defaults-IsSized : (c : Config) → IsConfig c → IsSized (with_defaults c)
unfolding with_defaults
with_defaults-IsSized c i =
    let small = i.small in
    let small_pending = i.small_pending in
    record {
      cache = ground arith;
      small = ground arith;
      pending = ground arith;
      small_pending = ground arith;
    }

default-IsConfig : IsConfig default_config
unfolding default_config
default-IsConfig = record { small = omega arith; small_pending = omega arith }

-- What `create` gives is sound: a null pointer, or a valid state.
create-IsSound :
    (mem : Allocation) (self_id : Option NodeId) (cfg : Option Config)
    → IsConfig (config_or_default cfg)
    → IsSound (create mem self_id cfg)
unfolding create
create-IsSound mem none cfg i = tt
create-IsSound mem (some self_id) cfg i =
    elim (Bool-cases (mem.state && (mem.peers && (mem.cache && mem.pending)))) [
      | inl given ↦ rw given (
          initial-IsValid (with_defaults (config_or_default cfg)) self_id
            (with_defaults-IsSized (config_or_default cfg) i))
      | inr refused ↦ rw refused tt
    ]

-- Every state that is reached from what wake_plumtree_create returns, by any calls in any order and with
-- any arguments, null ones included, is valid, if the sizes in the configuration are below 2^16.
pub created-IsSound :
    (mem : Allocation) (self_id : Option NodeId) (cfg : Option Config) {t : Handle}
    → IsConfig (config_or_default cfg)
    → Reach (create mem self_id cfg) t
    → IsSound t
created-IsSound mem self_id cfg i r = Reach-IsSound (create-IsSound mem self_id cfg i) r
