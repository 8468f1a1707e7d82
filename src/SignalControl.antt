-- ===== src/SignalControl.antt =====
-- libs/sentinel/signal_control: the agent that owns the phase machine and drives the lights.
pub mod Agent
pub mod Follow
pub mod Safety
