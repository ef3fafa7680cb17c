-- ===== src/Start.antt =====
-- The start of the process and the tools around it: configuration, ids, and the seed of an account.
pub mod Config
pub mod Ids
pub mod Seed
pub mod Boot
pub mod Hex
