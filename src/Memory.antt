-- ===== src/Memory.antt =====
-- libs/sentinel/memory: the window of past snapshots, and the agent that keeps it.
pub mod Repository
pub mod Agent
pub mod Window
pub mod Baseline
pub mod Publishing
