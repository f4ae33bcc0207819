-- ===== src/Tool.antt =====
-- internal/tool: the tools, who may use them, and the registry.
pub mod Policy
pub mod Registry
