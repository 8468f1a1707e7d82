-- ===== src/Contracts/Values.antt =====
-- libs/sentinel/contracts/value_objects.py: the value objects, with the checks that pydantic makes
-- when one is built. Seconds, metres, percentages and confidences are counted in thousandths, and
-- so are instants, from an epoch.
use sentinal_ai_control_room.Prelude.{
  ℕ, ◌+◌, ◌≤◌, ◌≡◌, Bool, true, ◌&&◌, Option, none, some, List, [], ◌∷◌, map, String, sum, ltb, leb,
  nat_beq, if◌then◌else◌, ◌==◌, arith,
}
use sentinal_ai_control_room.Prelude.Dict
use sentinal_ai_control_room.Prelude.Dict.{Dict}
use sentinal_ai_control_room.Prelude.Results.{Result, ok, raise, value_error}
use sentinal_ai_control_room.Contracts.Enums.{
  Direction, SignalPhase, DensityLevel, SystemMode, DecisionAction, IncidentType, IncidentSeverity,
  AgentStatus, direction_eq,
}

pub record LaneState : Type 0 where
  pub direction : Direction
  pub vehicle_count : ℕ
  pub moving_count : ℕ
  pub stopped_count : ℕ
  pub queue_length_m : ℕ
  pub avg_wait_s : ℕ
  pub occupancy_pct : ℕ
  pub density : DensityLevel
  pub has_emergency_vehicle : Bool
  pub pedestrian_waiting : Bool

-- Building a `LaneState`: the bound on `Percent`, and `_check_counts`.
unfoldable pub check_counts : LaneState → Result LaneState
check_counts lane =
    if leb lane.occupancy_pct 100000
    then (if nat_beq (lane.moving_count + lane.stopped_count) lane.vehicle_count
        then ok lane
        else raise value_error)
    else raise value_error

pub record LaneIsValid (lane : LaneState) : Type 0 where
  pub counted : lane.moving_count + lane.stopped_count ≡ lane.vehicle_count
  pub percent : lane.occupancy_pct ≤ 100000

pub check_counts-LaneIsValid :
    (l : LaneState) {lane : LaneState} → check_counts l ≡ ok lane → LaneIsValid lane
unfolding check_counts
check_counts-LaneIsValid l h = ground arith

pub record IntersectionState : Type 0 where
  pub intersection_id : String
  pub timestamp : ℕ
  pub lanes : Dict Direction LaneState
  pub current_phase : SignalPhase
  pub phase_elapsed_s : ℕ
  pub mode : SystemMode
  pub perception_confidence : ℕ

-- The loop of `_check_lane_consistency`.
unfoldable pub lanes_consistent : Dict Direction LaneState → Bool
lanes_consistent [] = true
lanes_consistent ((d, lane) ∷ lanes) = lane.direction == d && lanes_consistent lanes

unfoldable pub total_vehicles : IntersectionState → ℕ
total_vehicles s = sum (map (λ (lane : LaneState). lane.vehicle_count) (Dict.values s.lanes))

unfoldable pub total_stopped : IntersectionState → ℕ
total_stopped s = sum (map (λ (lane : LaneState). lane.stopped_count) (Dict.values s.lanes))

-- `IntersectionState.lane`.
unfoldable pub lane_of : IntersectionState → Direction → Option LaneState
lane_of s d = Dict.get s.lanes d

-- Python's `max` over the lanes by queue length: the first of the greatest.
unfoldable pub busiest_from : LaneState → List LaneState → LaneState
busiest_from best [] = best
busiest_from best (lane ∷ lanes) =
    busiest_from (if ltb best.queue_length_m lane.queue_length_m then lane else best) lanes

unfoldable pub busiest : List LaneState → Option LaneState
busiest [] = none
busiest (lane ∷ lanes) = some (busiest_from lane lanes)

unfoldable pub busiest_lane : IntersectionState → Option LaneState
unfolding busiest
busiest_lane s = busiest (Dict.values s.lanes)

-- `emergency_lanes`, over the lanes.
unfoldable pub emergency_directions : Dict Direction LaneState → List Direction
emergency_directions [] = []
emergency_directions ((d, lane) ∷ lanes) =
    if lane.has_emergency_vehicle
    then d ∷ emergency_directions lanes
    else emergency_directions lanes

unfoldable pub emergency_lanes : IntersectionState → List Direction
unfolding emergency_directions
emergency_lanes s = emergency_directions s.lanes

pub record LaneBaseline : Type 0 where
  pub direction : Direction
  pub avg_queue_veh : ℕ
  pub avg_wait_s : ℕ
  pub sample_count : ℕ

pub record HistoricalContext : Type 0 where
  pub intersection_id : String
  pub window_size : ℕ
  pub lanes : Dict Direction LaneBaseline

unfoldable pub baseline_for : HistoricalContext → Direction → Option LaneBaseline
baseline_for b d = Dict.get b.lanes d

pub record LaneForecast : Type 0 where
  pub direction : Direction
  pub horizon_s : ℕ
  pub predicted_queue_length_m : ℕ
  pub predicted_wait_s : ℕ
  pub confidence : ℕ
  pub lower_bound_m : ℕ
  pub upper_bound_m : ℕ

pub record Forecast : Type 0 where
  pub intersection_id : String
  pub horizon_s : ℕ
  pub lanes : Dict Direction LaneForecast
  pub model_version : String

pub record SignalCommand : Type 0 where
  pub intersection_id : String
  pub action : DecisionAction
  pub target_phase : SignalPhase
  pub duration_s : ℕ
  pub reason_code : String
  pub feature_snapshot : Dict String ℕ
  pub rejected_alternatives : List DecisionAction
  pub constraints_applied : List String
  pub policy_version : String

pub record SignalState : Type 0 where
  pub intersection_id : String
  pub phase : SignalPhase
  pub phase_elapsed_s : ℕ
  pub phase_remaining_s : ℕ

pub record Incident : Type 0 where
  pub intersection_id : String
  pub incident_type : IncidentType
  pub severity : IncidentSeverity
  pub direction : Option Direction
  pub confidence : ℕ
  pub detected_at : ℕ

pub record Explanation : Type 0 where
  pub intersection_id : String
  pub decision_reason_code : String
  pub text : String
  pub counterfactual : Option String
  pub generator : String
  pub model_id : Option String

pub record AgentHealth : Type 0 where
  pub agent_name : String
  pub status : AgentStatus
  pub last_heartbeat : ℕ
  pub details : Dict String String
