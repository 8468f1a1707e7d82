-- ===== src/Agents.antt =====
-- libs/sentinel/agents: what the agents have in common.
pub mod Base
pub mod Silence
