-- ===== src/Services/Agents.antt =====
-- `DecisionAgent`, `SignalControllerAgent` and `InMemorySignalActuator` of
-- libs/sentinel/services/agents.py. A handler is given the payload of an event for its intersection.
use sentinal_ai_control_room.Prelude.{
  ℕ, Bool, true, Option, some, List, [], ◌∷◌, ◌++◌, String, ltb, if◌then◌else◌, ◌==◌,
}
use sentinal_ai_control_room.Prelude.Results.{Result, ok, ◌>>=◌}
use sentinal_ai_control_room.Config.{DecisionSettings}
use sentinal_ai_control_room.Contracts.Enums.{
  Axis, SystemMode, fixed_timer, manual, SignalPhase, ns_green, ns_yellow, ew_green, ew_yellow,
  all_red, mode_eq,
}
use sentinal_ai_control_room.Contracts.Values.{IntersectionState, SignalCommand, SignalState}
use sentinal_ai_control_room.Simulation.Controllers
use sentinal_ai_control_room.Simulation.Controllers.{
  FixedTimerController, AdaptiveController, decide_fixed, decide_adaptive,
}

pub record DecisionService : Type 0 where
  pub ai_controller : AdaptiveController
  pub fallback_controller : FixedTimerController

-- The default controllers: each makes a machine of its own, in the green of north-south.
unfoldable pub init : DecisionService
unfolding Controllers.adaptive Controllers.fixed_timer
init = record {
  ai_controller = Controllers.adaptive Axis.north_south;
  fallback_controller = Controllers.fixed_timer 30000 Axis.north_south;
}

-- `_controller_for`: whether the fallback decides.
unfoldable pub use_fallback : DecisionSettings → IntersectionState → Bool
use_fallback s state =
    if state.mode == SystemMode.degraded
    then true
    else if state.mode == fixed_timer
    then true
    else if state.mode == manual
    then true
    else ltb state.perception_confidence s.min_perception_confidence

-- The `model_copy` of a fallback's command.
abbrev pub mark_degraded : SignalCommand → SignalCommand
mark_degraded command = record command {
  constraints_applied = command.constraints_applied ++ "degraded_fallback" ∷ [];
  policy_version = "degraded-fixed-timer-v1";
}

module _ (s : DecisionSettings) where
  by_fallback : DecisionService → IntersectionState → Result (DecisionService × SignalCommand)
  by_fallback c state = do
    (controller, command) ← decide_fixed s c.fallback_controller state 1000
    ok (record c { fallback_controller = controller }, mark_degraded command)

  by_ai : DecisionService → IntersectionState → Result (DecisionService × SignalCommand)
  by_ai c state = do
    (controller, command) ← decide_adaptive s c.ai_controller state 1000
    ok (record c { ai_controller = controller }, command)

  -- `DecisionAgent._handle` for a snapshot: the command of the `DecisionMade` that it publishes.
  unfoldable pub decide_state :
      DecisionService → IntersectionState → Result (DecisionService × SignalCommand)
  unfolding by_fallback by_ai
  decide_state c state = if use_fallback s state then by_fallback c state else by_ai c state

pub record SignalService : Type 0 where
  pub applied : List SignalCommand
  pub phase_elapsed_s : ℕ
  pub last_signal : Option SignalState
  pub published : List (Option SignalState × SignalState)

-- `_starts_new_phase`: the set has every phase.
abbrev pub starts_new_phase : SignalPhase → Bool
starts_new_phase ns_green = true
starts_new_phase ns_yellow = true
starts_new_phase ew_green = true
starts_new_phase ew_yellow = true
starts_new_phase all_red = true

-- What the actuator's `apply` returns.
abbrev pub signal_of : String → SignalService → SignalCommand → SignalState
signal_of intersection_id c command = record {
  intersection_id = intersection_id;
  phase = command.target_phase;
  phase_elapsed_s = if starts_new_phase command.target_phase then 0 else c.phase_elapsed_s;
  phase_remaining_s = command.duration_s;
}

-- `SignalControllerAgent._handle` for a decision, with the actuator's `apply`.
unfoldable pub actuate : String → SignalService → SignalCommand → SignalService
actuate intersection_id c command =
    let signal = signal_of intersection_id c command in
    record {
      applied = c.applied ++ command ∷ [];
      phase_elapsed_s = signal.phase_elapsed_s;
      last_signal = some signal;
      published = c.published ++ (c.last_signal, signal) ∷ [];
    }
