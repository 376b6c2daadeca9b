-- ===== src/Core.antt =====
-- app/core: access control, the rate limiter, and slugs.
pub mod Access
pub mod RateLimiter
pub mod Slugs
