-- ===== src/Orchestrator.antt =====
-- libs/sentinel/orchestrator: the agent that watches the fleet's health and owns the operating mode.
pub mod Agent
pub mod Mode
pub mod Watchdog
