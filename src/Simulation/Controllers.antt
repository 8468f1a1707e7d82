-- ===== src/Simulation/Controllers.antt =====
-- `FixedTimerController` and `AdaptiveController` of libs/sentinel/simulation/controllers.py. `dt` is
-- the tick of a configuration, or a literal, and not negative; an exception ends the run.
use sentinal_ai_control_room.Prelude.{
  ℕ, ◌+◌, Bool, true, false, not, ◌&&◌, Option, none, some, [], ◌∷◌, String, ltb, leb, nat_beq,
  if◌then◌else◌, ◌==◌,
}
use sentinal_ai_control_room.Prelude.Results.{Result, ok, ◌>>=◌}
use sentinal_ai_control_room.Config.{DecisionSettings, milli}
use sentinal_ai_control_room.Contracts.Enums.{
  Axis, north_south, east_west, SignalPhase, DecisionAction, keep_green, switch_phase,
  emergency_override, is_green, axis_eq, phase_eq,
}
use sentinal_ai_control_room.Contracts.Values.{
  LaneState, IntersectionState, SignalCommand, emergency_lanes,
}
use sentinal_ai_control_room.Control.Phase
use sentinal_ai_control_room.Control.Phase.{PhaseStateMachine, pos, other_axis, active_axis, step}
use sentinal_ai_control_room.Decision.Policy.{on_axis, sum_by, first_axis}

-- `_axis_queue`, a number of vehicles.
unfoldable pub axis_queue : IntersectionState → Axis → ℕ
unfolding on_axis sum_by
axis_queue state axis = sum_by (λ (l : LaneState). l.vehicle_count) (on_axis state.lanes axis)

-- `_emergency_axis`.
unfoldable pub emergency_axis : IntersectionState → Option Axis
unfolding emergency_lanes
emergency_axis state = first_axis (emergency_lanes state)

-- `Controller._action_for`.
abbrev pub action_for : SignalPhase → SignalPhase → DecisionAction
action_for previous nxt = if nxt == previous then keep_green else switch_phase

pub record FixedTimerController : Type 0 where
  pub green_s : ℕ
  pub initial_axis : Axis
  pub fsm : PhaseStateMachine

pub record AdaptiveController : Type 0 where
  pub initial_axis : Axis
  pub fsm : PhaseStateMachine
  pub since_green : Axis → ℕ

-- The constructors; `reset` gives the same state once more.
unfoldable pub fixed_timer : ℕ → Axis → FixedTimerController
unfolding Phase.init
fixed_timer green_s axis = record { green_s = green_s; initial_axis = axis; fsm = Phase.init axis }

unfoldable pub adaptive : Axis → AdaptiveController
unfolding Phase.init
adaptive axis = record { initial_axis = axis; fsm = Phase.init axis; since_green = λ a. 0 }

unfoldable pub reset_fixed : FixedTimerController → FixedTimerController
reset_fixed c = record c { fsm = Phase.init c.initial_axis }

unfoldable pub reset_adaptive : AdaptiveController → AdaptiveController
reset_adaptive c = record c { fsm = Phase.init c.initial_axis; since_green = λ a. 0 }

-- `_track_fairness`.
unfoldable pub track_fairness : Option Axis → ℕ → (Axis → ℕ) → Axis → ℕ
track_fairness none dt since axis = since axis + dt
track_fairness (some active) dt since axis = if axis == active then 0 else since axis + dt

-- The commands that the two controllers return.
abbrev pub fixed_command :
    FixedTimerController → IntersectionState → PhaseStateMachine → SignalCommand
fixed_command c state fsm = record {
  intersection_id = state.intersection_id;
  action = action_for c.fsm.phase fsm.phase;
  target_phase = fsm.phase;
  duration_s = c.green_s;
  reason_code = "fixed_timer_cycle";
  feature_snapshot = [];
  rejected_alternatives = [];
  constraints_applied = [];
  policy_version = "fixed-timer-v1";
}

abbrev pub adaptive_command :
    DecisionSettings
    → AdaptiveController
    → IntersectionState
    → PhaseStateMachine
    → DecisionAction
    → String
    → SignalCommand
adaptive_command s c state fsm action reason = record {
  intersection_id = state.intersection_id;
  action = if (fsm.phase == c.fsm.phase) && is_green fsm.phase then keep_green else action;
  target_phase = fsm.phase;
  duration_s = s.min_green_s;
  reason_code = reason;
  feature_snapshot =
      ("queue_ns", milli (axis_queue state north_south))
      ∷ ("queue_ew", milli (axis_queue state east_west))
      ∷ ("phase_elapsed_s", fsm.elapsed)
      ∷ [];
  rejected_alternatives = [];
  constraints_applied = [];
  policy_version = "adaptive-lqf-v1";
}

unfoldable pub fixed_request : FixedTimerController → Bool
fixed_request c = is_green c.fsm.phase && leb c.green_s c.fsm.elapsed

module _ (s : DecisionSettings) where
  -- `FixedTimerController.decide`.
  unfoldable pub decide_fixed :
      FixedTimerController → IntersectionState → ℕ → Result (FixedTimerController × SignalCommand)
  decide_fixed c state dt = do
    fsm ← step s c.fsm (pos dt) (fixed_request c)
    ok (record c { fsm = fsm }, fixed_command c state fsm)

  -- The comparison of the queues at the end of `_evaluate`.
  unfoldable pub compare_queues : ℕ → ℕ → Bool × DecisionAction × String
  compare_queues current opposing =
      if nat_beq current 0 && ltb 0 opposing
      then (true, switch_phase, "current_lane_empty")
      else if ltb current opposing
      then (true, switch_phase, "opposing_queue_longer")
      else (false, keep_green, "current_lane_busiest")

  -- `_evaluate` where no lane has an emergency vehicle.
  unfoldable pub evaluate_demand :
      (Axis → ℕ) → IntersectionState → Option Axis → Bool × DecisionAction × String
  unfolding compare_queues
  evaluate_demand since state none = (false, keep_green, "clearance_interval")
  evaluate_demand since state (some active) =
      if leb s.max_starvation_s (since (other_axis active))
      then (true, switch_phase, "fairness_anti_starvation")
      else compare_queues (axis_queue state active) (axis_queue state (other_axis active))

  -- `_evaluate` for the axis of an emergency.
  unfoldable pub evaluate_emergency : Axis → Option Axis → Bool × DecisionAction × String
  evaluate_emergency emergency none = (false, emergency_override, "emergency_hold_green")
  evaluate_emergency emergency (some active) =
      if not (active == emergency)
      then (true, emergency_override, "emergency_preemption")
      else (false, emergency_override, "emergency_hold_green")

  unfoldable pub evaluate :
      (Axis → ℕ) → IntersectionState → Option Axis → Bool × DecisionAction × String
  unfolding evaluate_demand evaluate_emergency
  evaluate since state active = elim (emergency_axis state) [
    | none ↦ evaluate_demand since state active
    | some emergency ↦ evaluate_emergency emergency active
  ]

  -- `AdaptiveController.decide`.
  unfoldable pub decide_adaptive :
      AdaptiveController → IntersectionState → ℕ → Result (AdaptiveController × SignalCommand)
  decide_adaptive c state dt = do
    let active = active_axis c.fsm
    let since = track_fairness active dt c.since_green
    let (request, action, reason) = evaluate since state active
    fsm ← step s c.fsm (pos dt) request
    ok (record c { fsm = fsm; since_green = since }, adaptive_command s c state fsm action reason)
