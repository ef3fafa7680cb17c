-- ===== src/Domain.antt =====
-- internal/domain: the data model, the evaluation of rules, validation and normalisation.
pub mod Value
pub mod Schema
pub mod Status
pub mod Logic
pub mod Registry
pub mod Validate
pub mod Normalize
