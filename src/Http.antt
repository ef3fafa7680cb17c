-- ===== src/Http.antt =====
-- internal/server/http, with the rate limit of internal/lib/ratelimit: from a request to its reply.
pub mod Messages
pub mod Log
pub mod Routes
pub mod Ratelimit
pub mod Handlers
pub mod Serve
