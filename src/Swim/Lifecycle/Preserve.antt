-- ===== src/Swim/Lifecycle/Preserve.antt =====
-- What `wake_swim_create` and `wake_swim_reset` establish.
use libwake.Common.{
  ℕ, ◌^◌, ◌≡◌, ◌<◌, refl, Option, none, some, [], Bool, true, false, ◌&&◌, arith, Option-cases, inl,
  inr,
}
use libwake.Swim.Types.{NodeId, Config, Swim}
use libwake.Swim.Invariant.{IsValid, AreTargets-nil}
use libwake.Swim.Lifecycle.{
  Allocation, default_config, enforce_minimums, initial, config_or_default, create, reset,
}

-- The widths of the fields that the invariant needs: both are uint16_t.
pub record FitsWords (c : Config) : Type 0 where
  pub members_fit : c.max_members < 2 ^ 16
  pub queue_fits : c.update_queue_size < 2 ^ 16

default-FitsWords : FitsWords default_config
unfolding default_config
default-FitsWords = omega arith

initial-IsValid :
    (c : Config) (address : ℕ) (self_id : NodeId) (self_addr self_port : ℕ)
    → c.max_members < 2 ^ 16
    → IsValid (initial (enforce_minimums c) address self_id self_addr self_port)
unfolding initial enforce_minimums
initial-IsValid c address self_id self_addr self_port h = record {
  small = ground arith;
  fits = omega arith;
  distinct = tt;
  no_self = refl;
  counted = refl;
  queue = record { room = ground arith; fits = omega arith; distinct = tt; modest = tt };
  targets = AreTargets-nil [];
  healthy = omega arith;
}

-- Did all four allocations succeed?
abbrev pub all_given : Allocation → Bool
all_given mem = elim (mem.address) [
  | none ↦ false
  | some a ↦ mem.members && (mem.probe_order && mem.updates)
]

module _ (mem : Allocation) (id : NodeId) (addr port : ℕ) (cfg : Option Config) where
  abbrev pub created : Option Swim
  created = create mem (some id) addr port cfg

  -- With memory, an identity and a configuration within its fields' widths, `create` returns a
  -- valid state of that identity.
  pub create-IsValid :
      FitsWords (config_or_default cfg)
      → all_given mem ≡ true
      → (sw : Swim) × (created ≡ some sw)
        × IsValid sw
        × (sw.self_id ≡ id)
        × (sw.self_addr ≡ addr)
        × (sw.self_port ≡ port)
  unfolding create
  create-IsValid f given = elim (Option-cases (mem.address)) [
    | inl failed ↦ absurd (ground (arith, failed, given))
    | inr (address, e) ↦
        let tables : (mem.members && (mem.probe_order && mem.updates)) ≡ true = rw e at given in
        (
          initial (enforce_minimums (config_or_default cfg)) address id addr port,
          rw (e, tables) refl,
          initial-IsValid (config_or_default cfg) address id addr port f.members_fit,
          refl,
          refl,
          refl,
        )
  ]

  -- Where any allocation fails there is no state.
  pub create_failed : all_given mem ≡ false → created ≡ none
  unfolding create
  create_failed e = ground arith

-- A reset keeps the invariant.
pub reset-IsValid : (sw : Swim) → IsValid sw → IsValid (reset sw)
unfolding reset
reset-IsValid sw v = record {
  small = v.small;
  fits = omega arith;
  distinct = tt;
  no_self = refl;
  counted = refl;
  queue = record { room = v.queue.room; fits = omega arith; distinct = tt; modest = tt };
  targets = AreTargets-nil [];
  healthy = omega arith;
}
