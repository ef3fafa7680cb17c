-- ===== src/Service/Legal.antt =====
-- The service calls against the tables: none of them leaves the tables unsound.
pub mod Surveys
pub mod Releases
pub mod Copies
pub mod Callers
pub mod Late
