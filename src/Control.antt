-- ===== src/Control.antt =====
-- libs/sentinel/control/phase.py: the phase state machine and the safety envelope, and what they
-- guarantee of one tick (Transitions) and of any run (Clearance, Service, Refinement).
pub mod Phase
pub mod Run
pub mod Transitions
pub mod Clearance
pub mod Service
pub mod Refinement
