-- ===== src/Plumtree.antt =====
-- Epidemic broadcast, src/wake_plumtree.c and src/wake_plumtree.h.
pub mod Types
pub mod Peers
pub mod Cache
pub mod Pending
pub mod Output
pub mod Handlers
pub mod Tick
pub mod Inspect
pub mod Lifecycle
pub mod Api
pub mod Invariant
pub mod PeerLaws
pub mod PeerTable
pub mod CacheLaws
pub mod PendingLaws
pub mod TickLaws
pub mod Parts
pub mod Preserve
pub mod Delivery
pub mod Once
pub mod Repair
pub mod Recovery
pub mod Wire
pub mod Relay
pub mod Sweep
pub mod Restart
pub mod Calls
