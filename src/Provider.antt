-- ===== src/Provider.antt =====
-- The model providers' failover (internal/provider): errors, health tracking and the chain.
pub mod Errors
pub mod Types
pub mod Health
pub mod Chain
