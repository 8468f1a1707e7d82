-- ===== src/Incident.antt =====
-- libs/sentinel/incident: the rules, and the agent that raises their findings.
pub mod Rules
pub mod Agent
pub mod Debounce
pub mod Stamps
pub mod Reporting
