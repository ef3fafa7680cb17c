-- ===== src/Qtype.antt =====
-- internal/domain/qtype: the question types, their property structs and their registration.
pub mod Props
pub mod Format
pub mod Text
pub mod Choice
pub mod Dropdown
pub mod Scale
pub mod Matrix
pub mod MultiFill
pub mod Register
