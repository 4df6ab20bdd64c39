-- ===== src/Tests.antt =====
-- A sample table, and every property at an input that meets its hypotheses.
mod Codec
mod Samples
mod Sensing
mod Membership
mod Protocol
mod Timing
mod Broadcast
mod Entities
