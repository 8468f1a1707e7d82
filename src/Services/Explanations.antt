-- ===== src/Services/Explanations.antt =====
-- `ExplanationAgent` of libs/sentinel/services/agents.py. `fixed` is Python's format of a number, in
-- thousandths, without decimals.
use Prim.Native.String.{◌++◌}
use sentinal_ai_control_room.Prelude.{ℕ, Option, none, some, String, if◌then◌else◌, ◌==◌, string_eq}
use sentinal_ai_control_room.Prelude.Dict
use sentinal_ai_control_room.Prelude.Dict.{Dict, listed}
use sentinal_ai_control_room.Contracts.Enums.{
  DecisionAction, keep_green, extend_green, reduce_green, switch_phase, emergency_override,
}
use sentinal_ai_control_room.Contracts.Values.{SignalCommand, Explanation}
use sentinal_ai_control_room.Contracts.Events.{
  explanation_generated, DomainEvent, Delivered, correlation,
}

-- The enumeration's values.
abbrev pub action_value : DecisionAction → String
action_value keep_green = "keep_green"
action_value extend_green = "extend_green"
action_value reduce_green = "reduce_green"
action_value switch_phase = "switch_phase"
action_value emergency_override = "emergency_override"

-- `queues.get(key, 0)`
abbrev pub queue_at : Dict String ℕ → String → ℕ
queue_at queues key = elim (Dict.get queues key) [ none ↦ 0 | some queue ↦ queue ]

abbrev pub counterfactual_of : DecisionAction → Option String
counterfactual_of keep_green =
    some "Switching now would interrupt the currently served traffic stream."
counterfactual_of switch_phase = some "Keeping green would increase delay on the opposing approach."
counterfactual_of _ = none

module _ (fixed : ℕ → String) where
  -- `_explain_command`.
  unfoldable pub explain_command : SignalCommand → String
  explain_command command =
      if command.reason_code == "emergency_preemption"
      then "Switching priority to the approach with an emergency vehicle."
      else if command.reason_code == "fairness_anti_starvation"
      then "Switching phases because the opposing approach has waited too long."
      else if command.reason_code == "opposing_queue_longer"
      then "Switching because the opposing queue is larger (NS="
        ++ fixed (queue_at command.feature_snapshot "queue_ns")
        ++ ", EW="
        ++ fixed (queue_at command.feature_snapshot "queue_ew")
        ++ ")."
      else if command.reason_code == "current_lane_busiest"
      then "Holding green because the current approach remains the busiest."
      else if listed command.constraints_applied "degraded_fallback"
      then "Using fixed-timer fallback because the intersection is in degraded control."
      else "Applied " ++ action_value command.action ++ " for reason " ++ command.reason_code ++ "."

  -- The explanation that `_handle` builds for a decision.
  unfoldable pub explain : Delivered → SignalCommand → Explanation
  unfolding explain_command
  explain event command = record {
    intersection_id = event.event.intersection_id;
    decision_reason_code = command.reason_code;
    text = explain_command command;
    counterfactual = counterfactual_of command.action;
    generator = "template-v1";
    model_id = none;
  }

  -- The event that it publishes.
  unfoldable pub explanation_event : String → Delivered → SignalCommand → DomainEvent
  unfolding explain
  explanation_event name event command = record {
    source = name;
    intersection_id = event.event.intersection_id;
    correlation_id = some (correlation event);
    causation_id = some event.event_id;
    payload = explanation_generated (explain event command);
  }
