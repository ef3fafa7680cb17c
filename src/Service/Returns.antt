-- ===== src/Service/Returns.antt =====
-- internal/service: how its calls end, with a value, an error or a panic.
pub mod Statements
pub mod Callers
pub mod Studio
pub mod Publishing
