-- ===== src/Radix.antt =====
-- src/freebsd/radix.c
pub mod Memory
pub mod Masks
pub mod Search
pub mod Match
pub mod Insert
pub mod AddMask
pub mod AddRoute
pub mod Delete
pub mod Walk
pub mod Tree
mod Tests
