-- ===== src/Tests/Incident.antt =====
-- Runs of the incident agent of libs/sentinel/incident with the default settings.
use sentinal_ai_control_room.Prelude.{All, ℕ, ◌*◌, ◌≡◌, refl, false, none, List, [], ◌∷◌, length}
use sentinal_ai_control_room.Prelude.Dict
use sentinal_ai_control_room.Config.{default_incident}
use sentinal_ai_control_room.Contracts.Enums.{north, ns_green, DensityLevel, SystemMode}
use sentinal_ai_control_room.Incident.Reporting.{IsReported, on_state-IsReported}
use sentinal_ai_control_room.Contracts.Values.{LaneState, IntersectionState}
use sentinal_ai_control_room.Contracts.Events.{state_updated, DomainEvent, Delivered}
use sentinal_ai_control_room.Incident.Rules.{
  stalled_vehicle_rule, stalled_lanes, abnormal_congestion_rule,
}
use sentinal_ai_control_room.Incident.Agent.{
  IncidentDetectionAgent, init, key_eq, on_state, receive, receive_all,
}
use sentinal_ai_control_room.Incident.Debounce.{Apart, raised, receive_all-Apart}

-- Three vehicles that stand at a green that has lasted for two minutes.
abbrev stalled : LaneState
stalled = record {
  direction = north;
  vehicle_count = 3;
  moving_count = 0;
  stopped_count = 3;
  queue_length_m = 21000;
  avg_wait_s = 60000;
  occupancy_pct = 0;
  density = DensityLevel.free;
  has_emergency_vehicle = false;
  pedestrian_waiting = false;
}

abbrev snapshot : ℕ → IntersectionState
snapshot second = record {
  intersection_id = "i1";
  timestamp = second * 1000;
  lanes = (north, stalled) ∷ [];
  current_phase = ns_green;
  phase_elapsed_s = 120000;
  mode = SystemMode.ai;
  perception_confidence = 1000;
}

abbrev event : ℕ → Delivered
event second = record {
  event_id = "e1";
  event = record {
    source = "perception";
    intersection_id = "i1";
    correlation_id = none;
    causation_id = none;
    payload = state_updated (snapshot second);
  };
}

abbrev events : List Delivered
events = event 100 ∷ event 130 ∷ event 160 ∷ event 219 ∷ []

-- Raised at 100 and, sixty seconds later, at 160; not at 130 and 219.
twice : length (raised (receive_all default_incident "i1" init events).published) ≡ 2
unfolding receive_all receive on_state init Dict.get Dict.set stalled_vehicle_rule stalled_lanes
    abnormal_congestion_rule
twice = refl

receive_all-Apart_example :
    Apart 60000 (raised (receive_all default_incident "i1" init events).published)
receive_all-Apart_example = receive_all-Apart default_incident "i1" events

abbrev handled : IncidentDetectionAgent
handled = on_state default_incident "i1" init (event 100) (snapshot 100)

on_state-IsReported_example :
    (news : List DomainEvent) × (handled.published ≡ news)
    × All
        (IsReported default_incident "i1" (event 100) 100000 init news)
        (stalled_vehicle_rule default_incident (snapshot 100))
    × All
        (IsReported default_incident "i1" (event 100) 100000 init news)
        (abnormal_congestion_rule default_incident (snapshot 100) init.baseline)
unfolding init
on_state-IsReported_example =
    on_state-IsReported default_incident "i1" init (event 100) (snapshot 100)
