-- ===== src/Tests/SignalControl.antt =====
-- A run of the signal controller of libs/sentinel/signal_control/agent.py.
use sentinal_ai_control_room.Prelude.{
  ◌+◌, ◌≡◌, refl, not, ◌&&◌, ◌||◌, List, [], ◌∷◌, leb, ◌==◌, if◌then◌else◌, arith,
}
use sentinal_ai_control_room.Prelude.Results.{ok}
use sentinal_ai_control_room.Config.{default_decision}
use sentinal_ai_control_room.Contracts.Enums.{
  north_south, ns_green, ns_yellow, ew_green, switch_phase, axis_eq,
}
use sentinal_ai_control_room.Contracts.Values.{SignalCommand}
use sentinal_ai_control_room.Contracts.Events.{decision_made}
use sentinal_ai_control_room.Control.Phase
use sentinal_ai_control_room.Control.Phase.{pos}
use sentinal_ai_control_room.SignalControl.Agent.{SignalController, init, start, on_decision, tick}
use sentinal_ai_control_room.SignalControl.Safety.{
  Input, event, elapse, handle, handle_all, IsSynced, start-IsSynced_always, tick-green,
}

abbrev command : SignalCommand
command = record {
  intersection_id = "i1";
  action = switch_phase;
  target_phase = ew_green;
  duration_s = 7000;
  reason_code = "opposing_demand_higher";
  feature_snapshot = [];
  rejected_alternatives = [];
  constraints_applied = [];
  policy_version = "utility-v1";
}

abbrev inputs : List Input
inputs =
    elapse (pos 6000)
    ∷ event (decision_made command)
    ∷ elapse (pos 1000)
    ∷ elapse (pos 3000)
    ∷ elapse (pos 2000)
    ∷ []

start-IsSynced_always_example :
    (c : SignalController) × (handle_all default_decision "i1"
        (start default_decision "i1" (init default_decision "i1" north_south))
        inputs
      ≡ ok c)
    × IsSynced default_decision "i1" ns_green c
start-IsSynced_always_example =
    start-IsSynced_always default_decision "i1" north_south inputs (omega arith)

-- The controller has served the axis that was asked for.
reached :
    (c : SignalController) × (handle_all default_decision "i1"
        (init default_decision "i1" north_south)
        inputs
      ≡ ok c)
    × (c.fsm.phase ≡ ew_green)
unfolding handle_all handle init tick on_decision Phase.init Phase.step
reached = (_, refl, refl)

tick-green_example :
    (c : SignalController) × (tick default_decision "i1"
        (init default_decision "i1" north_south)
        (pos 60000)
      ≡ ok c)
    × (c.desired_axis ≡ (init default_decision "i1" north_south).desired_axis)
    × (c.fsm.phase ≡ (
        if leb 60000 ((init default_decision "i1" north_south).fsm.elapsed + 60000)
          || (not (north_south == (init default_decision "i1" north_south).desired_axis)
              && leb 7000 ((init default_decision "i1" north_south).fsm.elapsed + 60000))
        then ns_yellow
        else ns_green))
unfolding init Phase.init
tick-green_example =
    tick-green default_decision "i1" (init default_decision "i1" north_south) north_south 60000
      (omega arith) refl
