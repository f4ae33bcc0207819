-- ===== src/Router.antt =====
-- Message routing (internal/router): sessions, lanes, policies and the pipeline.
pub mod Lane
pub mod Sessions
pub mod GroupPolicy
