-- ===== src/Decision/Agent.antt =====
-- `DecisionAgent` of libs/sentinel/decision/agent.py.
use sentinal_ai_control_room.Prelude.{
  ℕ, ◌+◌, ◌-◌, Option, none, some, List, [], ◌∷◌, ◌++◌, String, if◌then◌else◌,
}
use sentinal_ai_control_room.Prelude.Dict
use sentinal_ai_control_room.Prelude.Dict.{Dict}
use sentinal_ai_control_room.Config.{DecisionSettings}
use sentinal_ai_control_room.Contracts.Enums.{
  Axis, north_south, east_west, SignalPhase, is_green, phase_axis, axis_eq,
}
use sentinal_ai_control_room.Contracts.Values.{IntersectionState, Forecast, SignalCommand}
use sentinal_ai_control_room.Contracts.Events.{
  Payload, state_updated, prediction_updated, decision_made, DomainEvent, Delivered, correlation,
}
use sentinal_ai_control_room.Control.Phase.{green_phase_for}
use sentinal_ai_control_room.Decision.Policy.{DecisionContext, DecisionOutcome, decide}

pub record DecisionAgent : Type 0 where
  pub since_green : Dict Axis ℕ
  pub prev_ts : Option ℕ
  pub forecast : Option Forecast
  pub published : List DomainEvent

-- `__init__`.
unfoldable pub init : DecisionAgent
init = record {
  since_green = (north_south, 0) ∷ (east_west, 0) ∷ [];
  prev_ts = none;
  forecast = none;
  published = [];
}

-- `max(0.0, dt)` of the time since the previous snapshot.
abbrev pub elapsed_since : Option ℕ → ℕ → ℕ
elapsed_since none now = 0
elapsed_since (some before) now = now - before

-- The loop of `_advance_fairness`.
abbrev pub accrue : ℕ → Dict Axis ℕ → Dict Axis ℕ
accrue dt [] = []
accrue dt ((axis, t) ∷ d) = (axis, t + dt) ∷ accrue dt d

-- The reset of the axis that is green.
unfoldable pub reset_green : SignalPhase → Dict Axis ℕ → Dict Axis ℕ
reset_green phase d =
    if is_green phase
    then elim (phase_axis phase) [ none ↦ d | some axis ↦ Dict.set d axis 0 ]
    else d

unfoldable pub advance_fairness : DecisionAgent → IntersectionState → DecisionAgent
unfolding reset_green
advance_fairness a state = record a {
  since_green =
      reset_green state.current_phase
        (accrue (elapsed_since a.prev_ts state.timestamp) a.since_green);
  prev_ts = some state.timestamp;
}

module _ (s : DecisionSettings) (intersection_id : String) where
  -- The command that `_on_state` builds from the policy's outcome.
  unfoldable pub command_of : DecisionOutcome → SignalCommand
  command_of o = record {
    intersection_id = intersection_id;
    action = o.action;
    target_phase = green_phase_for o.desired_axis;
    duration_s = s.min_green_s;
    reason_code = o.reason_code;
    feature_snapshot =
        o.features ++ ("score_ns", o.scores north_south) ∷ ("score_ew", o.scores east_west) ∷ [];
    rejected_alternatives = o.rejected;
    constraints_applied = [];
    policy_version = "utility-v1";
  }

  abbrev pub context_of : DecisionAgent → IntersectionState → DecisionContext
  context_of a state = record {
    state = state;
    since_green_s = a.since_green;
    forecast = a.forecast;
  }

  -- The `DecisionMade` that `_on_state` publishes.
  abbrev pub decision_event : Delivered → DecisionOutcome → DomainEvent
  decision_event event outcome = record {
    source = "decision-agent";
    intersection_id = intersection_id;
    correlation_id = some (correlation event);
    causation_id = some event.event_id;
    payload = decision_made (command_of outcome);
  }

  unfoldable pub on_state : DecisionAgent → Delivered → IntersectionState → DecisionAgent
  unfolding command_of advance_fairness
  on_state a event state =
      let a' = advance_fairness a state in
      let outcome = decide s (context_of a' state) in
      record a' { published = a'.published ++ decision_event event outcome ∷ [] }

  -- The two subscriptions of `_register`, with the handlers' type tests.
  dispatch : DecisionAgent → Delivered → Payload → DecisionAgent
  dispatch a event (state_updated state) = on_state a event state
  dispatch a event (prediction_updated forecast) = record a { forecast = some forecast }
  dispatch a event _ = a

  unfoldable pub receive : DecisionAgent → Delivered → DecisionAgent
  unfolding dispatch
  receive a event = dispatch a event event.event.payload
