-- ===== src/Examples.antt =====
-- Runs of the models on concrete inputs, and the theorems at these inputs.
mod Provider
mod Limits
mod Lanes
mod Agent
mod Tool
mod Channel
mod Sessions
mod Subagent
mod Context
mod Core
mod Hook
mod Memory
mod Multiagent
