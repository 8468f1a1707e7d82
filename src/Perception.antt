-- ===== src/Perception.antt =====
-- libs/sentinel/perception: from the detections of a frame to the state of the intersection.
pub mod Geometry
pub mod Tracking
pub mod Movement
pub mod Density
pub mod Pipeline
pub mod Worker
pub mod Region
pub mod Frames
pub mod Association
pub mod Candidates
pub mod Identity
pub mod Hysteresis
pub mod Waiting
pub mod Stopped
pub mod Estimate
pub mod Bundles
pub mod Recovery
