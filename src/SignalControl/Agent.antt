-- ===== src/SignalControl/Agent.antt =====
-- `SignalControllerAgent` of libs/sentinel/signal_control/agent.py, over the `RecordingActuator` of
-- libs/sentinel/signal_control/actuator.py. What the agent publishes is appended to `published`, and
-- the safety envelope's counter is `violations`.
use sentinal_ai_control_room.Prelude.{
  ℕ, ◌-◌, Bool, false, not, Option, none, some, List, [], ◌∷◌, ◌++◌, String, ◌==◌, if◌then◌else◌,
}
use sentinal_ai_control_room.Prelude.Results.{Result, ok, ◌>>=◌}
use sentinal_ai_control_room.Config.{DecisionSettings}
use sentinal_ai_control_room.Contracts.Enums.{
  Axis, SignalPhase, ns_green, ns_yellow, ew_green, ew_yellow, all_red, phase_axis, axis_eq,
  phase_eq,
}
use sentinal_ai_control_room.Contracts.Values.{SignalState}
use sentinal_ai_control_room.Contracts.Events.{Payload, signal_changed, decision_made, DomainEvent}
use sentinal_ai_control_room.Control.Phase
use sentinal_ai_control_room.Control.Phase.{
  PhaseStateMachine, Dt, active_axis, step, validate_transition,
}

pub record SignalController : Type 0 where
  pub fsm : PhaseStateMachine
  pub desired_axis : Axis
  pub signal : SignalState
  pub applied : List SignalState
  pub published : List DomainEvent
  pub violations : ℕ

module _ (s : DecisionSettings) where
  -- The phase's budget in `_remaining_s`.
  budget_of : SignalPhase → ℕ
  budget_of ns_green = s.max_green_s
  budget_of ew_green = s.max_green_s
  budget_of ns_yellow = s.yellow_s
  budget_of ew_yellow = s.yellow_s
  budget_of all_red = s.all_red_s

  -- `max(0.0, budget - elapsed)`.
  unfoldable pub remaining_s : PhaseStateMachine → ℕ
  unfolding budget_of
  remaining_s fsm = budget_of fsm.phase - fsm.elapsed

  module _ (intersection_id : String) where
    unfoldable pub build_signal : PhaseStateMachine → SignalState
    unfolding remaining_s
    build_signal fsm = record {
      intersection_id = intersection_id;
      phase = fsm.phase;
      phase_elapsed_s = fsm.elapsed;
      phase_remaining_s = remaining_s fsm;
    }

    -- `__init__`: the initial phase is actuated, and nothing is published.
    unfoldable pub init : Axis → SignalController
    init initial_axis =
        let fsm = Phase.init initial_axis in
        record {
          fsm = fsm;
          desired_axis = initial_axis;
          signal = build_signal fsm;
          applied = build_signal fsm ∷ [];
          published = [];
          violations = 0;
        }

    -- `SignalChanged(...)` as this agent builds it.
    abbrev pub announce : Option SignalState → SignalState → DomainEvent
    announce previous signal = record {
      source = "signal-controller";
      intersection_id = intersection_id;
      correlation_id = none;
      causation_id = none;
      payload = signal_changed previous signal;
    }

    -- What `start` adds to the lifecycle of the base class: the live phase is announced.
    unfoldable pub start : SignalController → SignalController
    start c = record c { published = c.published ++ announce none c.signal ∷ [] }

    -- `_on_decision`; other events are ignored.
    unfoldable pub on_decision : SignalController → Payload → SignalController
    on_decision c (decision_made command) = elim (phase_axis command.target_phase) [
      | none ↦ c
      | some axis ↦ record c { desired_axis = axis }
    ]
    on_decision c _ = c

    abbrev pub request_switch : SignalController → Bool
    request_switch c = elim (active_axis c.fsm) [
      | none ↦ false
      | some axis ↦ not (axis == c.desired_axis)
    ]

    -- `previous_signal` in `tick`.
    abbrev pub previous_signal : SignalPhase → SignalState
    previous_signal previous = record {
      intersection_id = intersection_id;
      phase = previous;
      phase_elapsed_s = 0;
      phase_remaining_s = 0;
    }

    -- The rest of `tick`, after the machine's step.
    unfoldable pub show : SignalController → PhaseStateMachine → SignalController
    show c fsm =
        let signal = build_signal fsm in
        let previous = c.fsm.phase in
        if fsm.phase == previous then record c { fsm = fsm; signal = signal } else record c {
          fsm = fsm;
          signal = signal;
          violations = (validate_transition previous fsm.phase c.violations).1;
          applied = c.applied ++ signal ∷ [];
          published = c.published ++ announce (some (previous_signal previous)) signal ∷ [];
        }

    unfoldable pub tick : SignalController → Dt → Result SignalController
    unfolding show
    tick c dt = do fsm ← step s c.fsm dt (request_switch c); ok (show c fsm)
