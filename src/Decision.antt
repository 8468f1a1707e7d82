-- ===== src/Decision.antt =====
-- libs/sentinel/decision: the utility policy, and the agent that publishes its intents.
pub mod Rounding
pub mod Policy
pub mod Agent
pub mod Utility
pub mod Choice
pub mod Intent
