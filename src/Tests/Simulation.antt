-- ===== src/Tests/Simulation.antt =====
-- Runs of the controllers of libs/sentinel/simulation/controllers.py with the default settings.
use sentinal_ai_control_room.Prelude.{
  ℕ, ◌*◌, ◌≡◌, refl, false, none, [], ◌∷◌, ◌&&◌, ◌||◌, leb, if◌then◌else◌, arith,
}
use sentinal_ai_control_room.Prelude.Results.{ok}
use sentinal_ai_control_room.Config.{default_decision}
use sentinal_ai_control_room.Contracts.Enums.{
  Axis, north_south, east_west, Direction, north, east, ns_green, DensityLevel, SystemMode,
}
use sentinal_ai_control_room.Contracts.Values.{
  LaneState, IntersectionState, SignalCommand, emergency_lanes,
}
use sentinal_ai_control_room.Control.Phase.{PhaseStateMachine, green_phase_for, yellow_for_axis}
use sentinal_ai_control_room.Simulation.Controllers.{
  FixedTimerController, AdaptiveController, emergency_axis, decide_fixed, decide_adaptive,
}
use sentinal_ai_control_room.Simulation.Commands.{
  IsSafe, decide_adaptive-IsSafe, decide_fixed_green, decide_adaptive_fair,
}

abbrev lane : Direction → ℕ → LaneState
lane d n = record {
  direction = d;
  vehicle_count = n;
  moving_count = 0;
  stopped_count = n;
  queue_length_m = n * 7000;
  avg_wait_s = n * 2000;
  occupancy_pct = 0;
  density = DensityLevel.free;
  has_emergency_vehicle = false;
  pedestrian_waiting = false;
}

abbrev state : IntersectionState
state = record {
  intersection_id = "i1";
  timestamp = 5000;
  lanes = (north, lane north 9) ∷ (east, lane east 1) ∷ [];
  current_phase = ns_green;
  phase_elapsed_s = 10000;
  mode = SystemMode.ai;
  perception_confidence = 1000;
}

abbrev machine : ℕ → PhaseStateMachine
machine elapsed = record { phase = ns_green; elapsed = elapsed; next_axis = east_west }

abbrev timer : ℕ → FixedTimerController
timer elapsed = record { green_s = 30000; initial_axis = north_south; fsm = machine elapsed }

abbrev waited : Axis → ℕ
waited north_south = 0
waited east_west = 130000

abbrev impatient : AdaptiveController
impatient = record { initial_axis = north_south; fsm = machine 8000; since_green = waited }

decide_adaptive-IsSafe_example :
    (c' : AdaptiveController) × (command : SignalCommand) × (decide_adaptive default_decision
        impatient state 1000
      ≡ ok (c', command))
    × IsSafe default_decision (machine 8000) c'.fsm command
decide_adaptive-IsSafe_example =
    decide_adaptive-IsSafe default_decision state 1000 (omega arith) impatient (ground arith)

-- The tick that reaches thirty seconds of green does not end it.
decide_fixed_green_example :
    (c' : FixedTimerController) × (command : SignalCommand) × (decide_fixed default_decision
        (timer 29000)
        state
        1000
      ≡ ok (c', command))
    × (command.target_phase ≡ (
        if leb default_decision.max_green_s 30000
          || (leb 30000 29000 && leb default_decision.min_green_s 30000)
        then yellow_for_axis north_south
        else green_phase_for north_south))
decide_fixed_green_example =
    decide_fixed_green default_decision state 1000 (omega arith) (timer 29000) north_south refl

quiet : emergency_axis state ≡ none
unfolding emergency_axis emergency_lanes
quiet = refl

-- Nine vehicles against one: the shorter queue is served, since it has waited for two minutes.
decide_adaptive_fair_example :
    (c' : AdaptiveController) × (command : SignalCommand) × (decide_adaptive default_decision
        impatient state 1000
      ≡ ok (c', command))
    × (command.target_phase ≡ yellow_for_axis north_south)
    × (command.reason_code ≡ "fairness_anti_starvation")
decide_adaptive_fair_example =
    decide_adaptive_fair default_decision state 1000 (omega arith) impatient north_south refl quiet
      (omega arith) (omega arith)
