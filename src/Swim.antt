-- ===== src/Swim.antt =====
-- SWIM membership: src/wake_swim.h and src/wake_swim.c.
pub mod Types
pub mod State
pub mod Queue
pub mod Members
pub mod Gossip
pub mod Probe
pub mod Suspicion
pub mod Dissemination
pub mod Stats
pub mod Lifecycle
pub mod Api
pub mod Invariant
pub mod Calls
