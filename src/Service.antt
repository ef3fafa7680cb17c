-- ===== src/Service.antt =====
-- internal/service, with the call context of internal/lib/metadata and the middleware that checks
-- the session.
pub mod Metadata
pub mod Survey
pub mod Submission
pub mod Auth
pub mod Middleware
pub mod Legal
pub mod Returns
