-- ===== src/Agent.antt =====
-- The reason-and-act loop (internal/agent): its guards, the executor of tools and the loop.
pub mod Guards
pub mod Executor
pub mod Loop
