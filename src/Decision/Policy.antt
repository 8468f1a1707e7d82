-- ===== src/Decision/Policy.antt =====
-- `UtilityPolicy` of libs/sentinel/decision/policy.py. The weights and the quantities are in
-- thousandths, so a score is in millionths. A dictionary over both axes is a function of the axis.
use sentinal_ai_control_room.Prelude.{
  ℕ, ◌+◌, ◌*◌, Bool, false, ◌||◌, Option, none, some, List, [], ◌∷◌, String, ltb, leb, nat_beq,
  if◌then◌else◌, ◌==◌,
}
use sentinal_ai_control_room.Prelude.Dict
use sentinal_ai_control_room.Prelude.Dict.{Dict}
use sentinal_ai_control_room.Config.{DecisionSettings, milli}
use sentinal_ai_control_room.Contracts.Enums.{
  Axis, north_south, east_west, Direction, DecisionAction, keep_green, extend_green, reduce_green,
  switch_phase, emergency_override, direction_axis, phase_axis, is_green, axis_eq,
}
use sentinal_ai_control_room.Contracts.Values.{
  LaneState, IntersectionState, LaneForecast, Forecast, emergency_lanes,
}
use sentinal_ai_control_room.Decision.Rounding.{round3, round2, round1}

pub record AxisMetrics : Type 0 where
  pub queue_veh : ℕ
  pub wait_s : ℕ
  pub pedestrian : Bool
  pub predicted_queue_veh : ℕ
  pub since_green_s : ℕ

pub record DecisionContext : Type 0 where
  pub state : IntersectionState
  pub since_green_s : Dict Axis ℕ
  pub forecast : Option Forecast

-- `DecisionContext.active_axis`.
unfoldable pub active_axis : DecisionContext → Option Axis
active_axis c = let p = c.state.current_phase in if is_green p then phase_axis p else none

pub record DecisionOutcome : Type 0 where
  pub desired_axis : Axis
  pub action : DecisionAction
  pub reason_code : String
  pub scores : Axis → ℕ
  pub features : Dict String ℕ
  pub rejected : List DecisionAction

-- `_other`.
abbrev pub other : Axis → Axis
other north_south = east_west
other east_west = north_south

-- The comprehension `[lane for d, lane in ... if d.axis is axis]`.
unfoldable pub on_axis : {V : Type 0} → Dict Direction V → Axis → List V
on_axis [] axis = []
on_axis ((d, v) ∷ lanes) axis =
    if direction_axis d == axis then v ∷ on_axis lanes axis else on_axis lanes axis

unfoldable pub sum_by : {V : Type 0} → (V → ℕ) → List V → ℕ
sum_by f [] = 0
sum_by f (v ∷ vs) = f v + sum_by f vs

unfoldable pub any_by : {V : Type 0} → (V → Bool) → List V → Bool
any_by f [] = false
any_by f (v ∷ vs) = f v || any_by f vs

-- The predicted queue of an axis in `_metrics`.
unfoldable pub predicted : Option Forecast → Axis → ℕ
unfolding on_axis sum_by
predicted none axis = 0
predicted (some f) axis =
    sum_by (λ (l : LaneForecast). l.predicted_queue_length_m) (on_axis f.lanes axis)

abbrev pub get_or_zero : Option ℕ → ℕ
get_or_zero none = 0
get_or_zero (some n) = n

unfoldable pub metrics : DecisionContext → Axis → AxisMetrics
unfolding on_axis sum_by any_by predicted
metrics c axis =
    let lanes = on_axis c.state.lanes axis in
    record {
      queue_veh = sum_by (λ (l : LaneState). l.vehicle_count) lanes;
      wait_s = sum_by (λ (l : LaneState). l.avg_wait_s) lanes;
      pedestrian = any_by (λ (l : LaneState). l.pedestrian_waiting) lanes;
      predicted_queue_veh = predicted c.forecast axis;
      since_green_s = get_or_zero (Dict.get c.since_green_s axis);
    }

-- `_emergency_axis`.
abbrev pub first_axis : List Direction → Option Axis
first_axis [] = none
first_axis (d ∷ ds) = some (direction_axis d)

unfoldable pub emergency_axis : IntersectionState → Option Axis
unfolding emergency_lanes
emergency_axis state = first_axis (emergency_lanes state)

-- `_higher`: `max` gives the first of the greatest, and north-south is first.
unfoldable pub higher : (Axis → ℕ) → Axis
higher scores = if ltb (scores north_south) (scores east_west) then east_west else north_south

module _ (s : DecisionSettings) where
  unfoldable pub score : AxisMetrics → ℕ
  score m =
      s.weight_queue * milli m.queue_veh
      + s.weight_wait * m.wait_s
      + s.weight_fairness * m.since_green_s
      + s.weight_pedestrian * (if m.pedestrian then 1000 else 0)
      + s.weight_prediction * m.predicted_queue_veh

  unfoldable pub hold_action : AxisMetrics → DecisionAction × String
  hold_action m =
      if nat_beq m.queue_veh 0
      then (reduce_green, "current_axis_clearing")
      else if leb s.queue_congestion_threshold_m (milli m.queue_veh)
      then (extend_green, "current_axis_congested")
      else (keep_green, "current_axis_serving")

-- `_outcome`.
unfoldable pub outcome :
    Axis
    → DecisionAction
    → String
    → (Axis → ℕ)
    → (Axis → AxisMetrics)
    → List DecisionAction
    → DecisionOutcome
outcome desired action reason scores metrics rejected = record {
  desired_axis = desired;
  action = action;
  reason_code = reason;
  scores = λ axis. round3 (scores axis);
  features =
      ("queue_ns", milli (metrics north_south).queue_veh)
      ∷ ("queue_ew", milli (metrics east_west).queue_veh)
      ∷ ("wait_ns", round2 (metrics north_south).wait_s)
      ∷ ("wait_ew", round2 (metrics east_west).wait_s)
      ∷ ("since_green_ns", round1 (metrics north_south).since_green_s)
      ∷ ("since_green_ew", round1 (metrics east_west).since_green_s)
      ∷ [];
  rejected = rejected;
}

module _ (s : DecisionSettings) where
  -- Steps 3 and 4 of `decide`: the axis `active` is green.
  unfoldable pub decide_green : Axis → (Axis → ℕ) → (Axis → AxisMetrics) → DecisionOutcome
  unfolding outcome hold_action
  decide_green active scores metrics =
      if ltb (scores active + milli s.switch_penalty) (scores (other active))
      then outcome (other active) switch_phase "opposing_demand_higher" scores metrics
          (keep_green ∷ [])
      else (let (action, reason) = hold_action s (metrics active) in
          outcome active action reason scores metrics (switch_phase ∷ []))

  unfoldable pub decide : DecisionContext → DecisionOutcome
  unfolding metrics score emergency_axis active_axis higher outcome decide_green
  decide c =
      let ms = metrics c in
      let scores = λ (axis : Axis). score s (ms axis) in
      elim (emergency_axis c.state) [
        | some axis ↦ outcome axis emergency_override "emergency_preemption" scores ms []
        | none ↦ elim (active_axis c) [
          | none ↦ outcome (higher scores) keep_green "clearance_interval" scores ms []
          | some active ↦ decide_green active scores ms
        ]
      ]
