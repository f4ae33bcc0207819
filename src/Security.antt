-- ===== src/Security.antt =====
-- The guards of internal/security.
pub mod RateLimit
