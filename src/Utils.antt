-- ===== src/Utils.antt =====
-- src/utils/security.rs.
pub mod Validator
pub mod Patterns
pub mod RateLimiter
