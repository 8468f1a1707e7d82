-- ===== src/Tests/Decision.antt =====
-- Runs of the policy and the agent of libs/sentinel/decision with the default settings.
use sentinal_ai_control_room.Prelude.{
  ℕ, ◌+◌, ◌*◌, ◌<◌, ◌≡◌, ◌≢◌, ◌↔◌, refl, Bool, true, false, none, some, [], ◌∷◌, arith,
}
use sentinal_ai_control_room.Prelude.Dict
use sentinal_ai_control_room.Config.{default_decision, milli}
use sentinal_ai_control_room.Contracts.Enums.{
  Axis, north_south, east_west, Direction, north, east, ns_green, ns_yellow, ew_green, DensityLevel,
  SystemMode, switch_phase, emergency_override,
}
use sentinal_ai_control_room.Contracts.Values.{LaneState, IntersectionState, emergency_lanes}
use sentinal_ai_control_room.Contracts.Events.{DomainEvent, Delivered, state_updated}
use sentinal_ai_control_room.Decision.Policy.{DecisionContext, decide}
use sentinal_ai_control_room.Decision.Agent.{DecisionAgent, receive}
use sentinal_ai_control_room.Decision.Choice.{
  carries, decide_switch_iff, decide_emergency, decide_fair,
}
use sentinal_ai_control_room.Decision.Intent.{clocks, tick-receive}
use sentinal_ai_control_room.Decision.Utility.{utility}
use sentinal_ai_control_room.Control.Phase.{pos}
use sentinal_ai_control_room.Prelude.Results.{ok}
use sentinal_ai_control_room.SignalControl.Agent.{SignalController, build_signal, on_decision, tick}

abbrev lane : Direction → ℕ → Bool → LaneState
lane d n emergency = record {
  direction = d;
  vehicle_count = n;
  moving_count = 0;
  stopped_count = n;
  queue_length_m = n * 7000;
  avg_wait_s = n * 2000;
  occupancy_pct = 0;
  density = DensityLevel.free;
  has_emergency_vehicle = emergency;
  pedestrian_waiting = false;
}

abbrev state : ℕ → ℕ → Bool → IntersectionState
state n m emergency = record {
  intersection_id = "i1";
  timestamp = 5000;
  lanes = (north, lane north n false) ∷ (east, lane east m emergency) ∷ [];
  current_phase = ns_green;
  phase_elapsed_s = 10000;
  mode = SystemMode.ai;
  perception_confidence = 1000;
}

abbrev context : ℕ → ℕ → Bool → ℕ → DecisionContext
context n m emergency waited = record {
  state = state n m emergency;
  since_green_s = clocks 0 waited;
  forecast = none;
}

run : Unit {0}
unfolding decide Dict.get emergency_lanes carries
run = tt

busy_east : (decide default_decision (context 1 9 false 20000)).action ≡ switch_phase
unfolding run
busy_east = refl

decide_switch_iff_example :
    (((decide default_decision (context 1 9 false 20000)).action ≡ switch_phase) ↔ (
      utility default_decision (context 1 9 false 20000) north_south
        + milli default_decision.switch_penalty
      < utility default_decision (context 1 9 false 20000) east_west))
    × ((decide default_decision (context 1 9 false 20000)).action ≡ switch_phase
        → (decide default_decision (context 1 9 false 20000)).desired_axis ≡ east_west)
    × ((decide default_decision (context 1 9 false 20000)).action ≢ switch_phase
        → (decide default_decision (context 1 9 false 20000)).desired_axis ≡ north_south)
unfolding run
decide_switch_iff_example =
    decide_switch_iff default_decision (context 1 9 false 20000) north_south refl refl refl

decide_emergency_example :
    (carries (state 9 0 true).lanes east_west ≡ true
      → ((decide default_decision (context 9 0 true 0)).action ≡ emergency_override)
        × (carries
              (state 9 0 true).lanes
              (decide default_decision (context 9 0 true 0)).desired_axis
            ≡ true))
    × (carries (state 9 0 true).lanes east_west ≡ false
        → carries (state 9 0 true).lanes north_south ≡ false
        → (decide default_decision (context 9 0 true 0)).action ≢ emergency_override)
decide_emergency_example = decide_emergency default_decision (context 9 0 true 0) east_west

-- Two minutes of waiting outweigh four queued vehicles.
decide_fair_example :
    ((decide default_decision (context 4 0 false 120000)).action ≡ switch_phase)
    × ((decide default_decision (context 4 0 false 120000)).desired_axis ≡ east_west)
unfolding run
decide_fair_example =
    decide_fair default_decision (context 4 0 false 120000) north_south refl refl (omega arith)

abbrev agent : DecisionAgent
agent = record {
  since_green = clocks 3000 8000;
  prev_ts = some 4000;
  forecast = none;
  published = [];
}

abbrev snapshot : Delivered
snapshot = record {
  event_id = "e7";
  event = record {
    source = "perception";
    intersection_id = "i1";
    correlation_id = none;
    causation_id = none;
    payload = state_updated (state 1 9 false);
  };
}

abbrev times : Axis → ℕ
times north_south = 3000
times east_west = 8000

abbrev controller : SignalController
controller = record {
  fsm = record { phase = ns_green; elapsed = 9000; next_axis = east_west };
  desired_axis = north_south;
  signal =
      build_signal default_decision "i1"
        (record { phase = ns_green; elapsed = 9000; next_axis = east_west });
  applied = [];
  published = [];
  violations = 0;
}

-- One vehicle against nine: the decision is sent, and at ten seconds of green the signal yields.
tick-receive_example :
    (sent : DomainEvent) × ((receive default_decision "i1" agent snapshot).published ≡ sent ∷ [])
    × (c' : SignalController) × (tick default_decision "i1"
          (on_decision default_decision "i1" controller sent.payload)
          (pos 1000)
        ≡ ok c')
    × (c'.fsm.phase ≡ ns_yellow)
unfolding run
tick-receive_example =
    tick-receive default_decision "i1" agent (state 1 9 false) north_south times snapshot
      default_decision "i1" controller 1000 refl refl refl refl refl refl (omega arith)

-- The longer queue loses the green to the one that has waited, and the policy wants it back at the
-- first snapshot of the other green, whose clock is 0.
thrashes :
    ((decide default_decision (context 20 10 false 200_000)).action ≡ switch_phase)
    × ((decide default_decision (record {
      state = record (state 20 10 false) { current_phase = ew_green };
      since_green_s = clocks 5000 0;
      forecast = none;
    })).action
        ≡ switch_phase)
unfolding run
thrashes = (refl, refl)
