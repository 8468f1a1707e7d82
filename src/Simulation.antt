-- ===== src/Simulation.antt =====
-- libs/sentinel/simulation: the benchmark's controllers, the analytical twin of the traffic, and the
-- harness that runs the ones against the other.
pub mod Controllers
pub mod Commands
pub mod Scenario
pub mod Kpi
pub mod Twin
pub mod Lanes
pub mod Traffic
pub mod Harness
pub mod Arrivals
pub mod Benchmark
