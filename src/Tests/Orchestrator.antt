-- ===== src/Tests/Orchestrator.antt =====
-- Runs of the orchestrator of libs/sentinel/orchestrator/agent.py with the default settings.
use sentinal_ai_control_room.Prelude.{
  ℕ, ◌≡◌, none, some, List, [], ◌∷◌, ◌++◌, String, string_eq, nat_eq, if◌then◌else◌, ◌==◌,
}
use sentinal_ai_control_room.Prelude.Dict
use sentinal_ai_control_room.Config.{default_decision, default_orchestrator}
use sentinal_ai_control_room.Contracts.Enums.{SystemMode, ai, ns_green, healthy, unhealthy, mode_eq}
use sentinal_ai_control_room.Contracts.Values.{IntersectionState, AgentHealth}
use sentinal_ai_control_room.Contracts.Events.{Payload, state_updated, agent_heartbeat, Delivered}
use sentinal_ai_control_room.Orchestrator.Agent.{
  init, mode_event, on_heartbeat, on_state, Input, delivered, woken, handle_all,
}
use sentinal_ai_control_room.Orchestrator.Mode.{
  IsCoherent, init-IsCoherent, mode_for, reason_for, on_state_mode, handle_all-IsCoherent,
}
use sentinal_ai_control_room.Orchestrator.Watchdog.{woken_at, late, get-woken_at}

-- The two texts that the runs print, of the confidence 0.2 and of the threshold.
abbrev fixed2 : ℕ → String
fixed2 n = if n == 200 then "0.20" else "0.45"

abbrev state : ℕ → IntersectionState
state confidence = record {
  intersection_id = "i1";
  timestamp = 5000;
  lanes = [];
  current_phase = ns_green;
  phase_elapsed_s = 8000;
  mode = ai;
  perception_confidence = confidence;
}

abbrev health : AgentHealth
health = record { agent_name = "perception"; status = healthy; last_heartbeat = 1000; details = [] }

abbrev event : Payload → Delivered
event payload = record {
  event_id = "e1";
  event = record {
    source = "perception";
    intersection_id = "i1";
    correlation_id = none;
    causation_id = none;
    payload = payload;
  };
}

abbrev inputs : List Input
inputs =
    delivered (event (agent_heartbeat health))
    ∷ delivered (event (state_updated (state 200)))
    ∷ woken 20000
    ∷ delivered (event (state_updated (state 1000)))
    ∷ []

handle_all-IsCoherent_example :
    IsCoherent (handle_all default_orchestrator default_decision fixed2 "i1" init inputs)
handle_all-IsCoherent_example =
    handle_all-IsCoherent default_orchestrator default_decision fixed2 "i1" inputs

on_state_mode_example :
    ((on_state default_decision fixed2 "i1" init (state 200)).mode ≡ SystemMode.degraded)
    × ((on_state default_decision fixed2 "i1" init (state 200)).published ≡ (
        if init.mode == mode_for default_decision fixed2 "i1" (state 200)
        then init.published
        else init.published
          ++ mode_event default_decision fixed2 "i1" init.mode SystemMode.degraded
              (reason_for default_decision fixed2 "i1" (state 200))
            ∷ []))
on_state_mode_example = on_state_mode default_decision fixed2 "i1" init (state 200) init-IsCoherent

-- Fifteen seconds after the heartbeat the agent is not late, a millisecond later it is.
get-woken_at_example :
    Dict.get
      (woken_at default_orchestrator (16000 ∷ 16001 ∷ []) (on_heartbeat init health)).health
      "perception"
    ≡ some (record health { status = unhealthy })
unfolding woken_at late
get-woken_at_example = get-woken_at default_orchestrator init health (16000 ∷ 16001 ∷ [])
