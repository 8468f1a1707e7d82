-- ===== src/Services.antt =====
-- libs/sentinel/services/agents.py: the service agents that decide by one of two controllers,
-- actuate the decision as it comes, and raise incidents.
pub mod Agents
pub mod Incidents
pub mod Edges
pub mod Explanations
pub mod Reasons
pub mod Handover
