-- ===== src/Tests/Traffic.antt =====
-- Runs of the twin of libs/sentinel/simulation/analytical.py, with arrivals from a toy generator.
use sentinal_ai_control_room.Prelude.{ℕ, ◌+◌, ◌*◌, ◌%◌, ◌≤◌, ◌≡◌, refl, List, [], ◌∷◌, arith}
use sentinal_ai_control_room.Prelude.Dict.{keys}
use sentinal_ai_control_room.Prelude.Results.{ok}
use sentinal_ai_control_room.Config.{default_decision}
use sentinal_ai_control_room.Contracts.Enums.{
  Axis, SignalPhase, ns_green, ns_yellow, ew_green, all_red, keep_green, east, direction_eq,
}
use sentinal_ai_control_room.Contracts.Values.{SignalCommand}
use sentinal_ai_control_room.Simulation.Controllers.{fixed_timer, adaptive}
use sentinal_ai_control_room.Simulation.Scenario.{SimConfig, asymmetric_demand}
use sentinal_ai_control_room.Simulation.Kpi.{KpiSummary}
use sentinal_ai_control_room.Simulation.Twin.{Environment, fresh}
use sentinal_ai_control_room.Simulation.Lanes.{AllConserving}
use sentinal_ai_control_room.Simulation.Traffic.{play, play-AllConserving}
use sentinal_ai_control_room.Simulation.Harness.{
  fixed_controller, adaptive_controller, run_controller,
}
use sentinal_ai_control_room.Simulation.Benchmark.{
  arrivals, fixed_controller-IsTotal, adaptive_controller-IsTotal, run_controller_fair,
}

-- A sample of 0 to 2 vehicles, and the next state of the generator.
abbrev poisson : ℕ → ℕ → ℕ × ℕ
poisson r mean = (r % 3, (r * 5 + mean) % 1000)

abbrev seeded : ℕ → ℕ
seeded n = n

abbrev scenario : SimConfig
scenario = record {
  intersection_id = "i1";
  dt_s = 1000;
  horizon_s = 1_200_000;
  seed = 42;
  demand = asymmetric_demand 220 50;
  saturation_flow_vps = 500;
  vehicle_length_m = 7000;
  approach_length_m = 200_000;
  emergencies = record { direction = east; start_s = 1000; duration_s = 2000 } ∷ [];
}

abbrev show : SignalPhase → SignalCommand
show phase = record {
  intersection_id = "i1";
  action = keep_green;
  target_phase = phase;
  duration_s = 1000;
  reason_code = "apply";
  feature_snapshot = [];
  rejected_alternatives = [];
  constraints_applied = [];
  policy_version = "";
}

abbrev commands : List SignalCommand
commands = show ns_green ∷ show ns_green ∷ show ns_yellow ∷ show all_red ∷ show ew_green ∷ []

play-AllConserving_example :
    (e : Environment ℕ) × (play poisson seeded scenario (fresh poisson seeded scenario) commands
      ≡ ok e)
    × AllConserving scenario 5000 e.lanes
    × (keys e.lanes ≡ keys scenario.demand)
play-AllConserving_example = play-AllConserving poisson seeded scenario commands (refl, tt)

-- The two controllers of the benchmark.
run_controller_fair_example :
    (k : KpiSummary) × (m : KpiSummary) × (run_controller poisson seeded scenario
        (fixed_controller default_decision)
        (fixed_timer 30000 Axis.north_south)
      ≡ ok k)
    × (run_controller poisson seeded scenario
          (adaptive_controller default_decision)
          (adaptive Axis.north_south)
        ≡ ok m)
    × (arrivals k.lanes ≡ arrivals m.lanes)
    × (k.total_served ≤ k.total_arrived)
    × (m.total_served ≤ m.total_arrived)
run_controller_fair_example =
    run_controller_fair poisson seeded scenario (fixed_controller default_decision)
      (adaptive_controller default_decision) (fixed_timer 30000 Axis.north_south)
      (adaptive Axis.north_south) (fixed_controller-IsTotal default_decision 1000 (omega arith))
      (adaptive_controller-IsTotal default_decision 1000 (omega arith)) (refl, tt)
