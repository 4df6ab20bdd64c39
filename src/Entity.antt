-- ===== src/Entity.antt =====
-- src/wake_entity.c and src/wake_entity.h: the things that log events mention, as 64 bytes each.
pub mod Types
pub mod Siphash
pub mod Init
pub mod Ops
pub mod Names
pub mod Image
pub mod Valid
pub mod Distinct
pub mod Contract
pub mod Format
pub mod Printed
pub mod Decimal
