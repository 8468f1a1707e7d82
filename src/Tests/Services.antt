-- ===== src/Tests/Services.antt =====
-- Runs of the service agents of libs/sentinel/services/agents.py with the default settings.
use sentinal_ai_control_room.Prelude.{
  ℕ, ◌≡◌, refl, true, false, none, some, String, [], ◌∷◌, ◌++◌, arith,
}
use sentinal_ai_control_room.Prelude.Results.{ok}
use sentinal_ai_control_room.Config.{default_decision}
use sentinal_ai_control_room.Contracts.Enums.{
  north_south, east_west, SignalPhase, ns_green, ew_green, SystemMode,
}
use sentinal_ai_control_room.Contracts.Values.{IntersectionState, SignalCommand, SignalState}
use sentinal_ai_control_room.Contracts.Events.{decision_made, Delivered}
use sentinal_ai_control_room.Control.Phase.{PhaseStateMachine, is_legal_transition, step}
use sentinal_ai_control_room.Simulation.Controllers.{
  FixedTimerController, AdaptiveController, fixed_command, fixed_request, decide_fixed,
}
use sentinal_ai_control_room.Simulation.Commands.{IsSafe}
use sentinal_ai_control_room.Services.Agents.{
  DecisionService, SignalService, decide_state, actuate, use_fallback, mark_degraded,
}
use sentinal_ai_control_room.Services.Explanations.{explain}
use sentinal_ai_control_room.Services.Reasons.{explain-decide_state}
use sentinal_ai_control_room.Services.Handover.{decide_state-IsSafe, handover-conflict}

abbrev machine : SignalPhase → ℕ → PhaseStateMachine
machine phase elapsed = record { phase = phase; elapsed = elapsed; next_axis = east_west }

abbrev fallback : FixedTimerController
fallback = record { green_s = 30000; initial_axis = north_south; fsm = machine ns_green 3000 }

abbrev ai : AdaptiveController
ai = record { initial_axis = north_south; fsm = machine ew_green 8000; since_green = λ a. 0 }

-- The fallback has decided for three ticks, in the green of north-south, and the adaptive
-- controller has since moved on to east-west.
abbrev service : DecisionService
service = record { ai_controller = ai; fallback_controller = fallback }

abbrev state : SystemMode → IntersectionState
state mode = record {
  intersection_id = "i1";
  timestamp = 5000;
  lanes = [];
  current_phase = ew_green;
  phase_elapsed_s = 8000;
  mode = mode;
  perception_confidence = 1000;
}

abbrev last : SignalState
last = record {
  intersection_id = "i1";
  phase = ew_green;
  phase_elapsed_s = 0;
  phase_remaining_s = 7000;
}

abbrev signals : SignalService
signals = record { applied = []; phase_elapsed_s = 0; last_signal = some last; published = [] }

healthy : use_fallback default_decision (state SystemMode.ai) ≡ false
unfolding use_fallback
healthy = refl

unhealthy : use_fallback default_decision (state SystemMode.degraded) ≡ true
unfolding use_fallback
unhealthy = refl

decide_state-IsSafe_example :
    (c' : DecisionService) × (command : SignalCommand) × (decide_state default_decision service
        (state SystemMode.ai)
      ≡ ok (c', command))
    × IsSafe default_decision ai.fsm c'.ai_controller.fsm command
decide_state-IsSafe_example =
    decide_state-IsSafe default_decision "i1" service (state SystemMode.ai) healthy (ground arith)

-- From the green of east-west straight to the green of north-south.
handover-conflict_example :
    (c' : DecisionService) × (command : SignalCommand) × (signal : SignalState) × (decide_state
        default_decision service
        (state SystemMode.degraded)
      ≡ ok (c', command))
    × ((actuate "i1" signals command).published ≡ [] ++ (some last, signal) ∷ [])
    × (signal.phase ≡ ns_green)
    × (is_legal_transition ew_green signal.phase ≡ false)
handover-conflict_example =
    handover-conflict default_decision "i1" service signals last (state SystemMode.degraded)
      east_west refl refl refl (omega arith) (omega arith) unhealthy

-- The next decision of the fallback.
abbrev fallback_command : SignalCommand
fallback_command =
    mark_degraded (fixed_command fallback (state SystemMode.degraded) (machine ns_green 4000))

abbrev stepped : DecisionService
stepped = record {
  ai_controller = ai;
  fallback_controller = record fallback { fsm = machine ns_green 4000 };
}

fallback_decides :
    decide_state default_decision service (state SystemMode.degraded)
    ≡ ok (stepped, fallback_command)
unfolding decide_state use_fallback decide_fixed step fixed_request
fallback_decides = refl

-- A toy in place of the format of a number.
abbrev fixed : ℕ → String
fixed n = "some"

abbrev decision : Delivered
decision = record {
  event_id = "e9";
  event = record {
    source = "decision-agent";
    intersection_id = "i1";
    correlation_id = none;
    causation_id = none;
    payload = decision_made fallback_command;
  };
}

explain-decide_state_example :
    (explain fixed decision fallback_command).text
    ≡ "Using fixed-timer fallback because the intersection is in degraded control."
explain-decide_state_example =
    explain-decide_state fixed default_decision service stepped (state SystemMode.degraded) decision
      fallback_command unhealthy fallback_decides
