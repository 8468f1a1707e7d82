-- ===== src/Tests.antt =====
-- The theorems at concrete inputs, with the programs' defaults, and runs of the definitions.
mod Control
mod SignalControl
mod Messaging
mod Decision
mod Simulation
mod Services
mod Orchestrator
mod Memory
mod Incident
mod Traffic
mod Perception
mod Agents
