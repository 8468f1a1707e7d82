-- ===== src/Contracts/Events.antt =====
-- libs/sentinel/contracts/events.py: the events on the bus. An agent builds an event without its
-- `event_id` and `occurred_at`, which the source draws from uuid4 and the clock: that is a
-- `DomainEvent` here, and the bus's `Delivered` adds the id.
use sentinal_ai_control_room.Prelude.{Option, none, some, String, ◌==◌, if◌then◌else◌, string_eq}
use sentinal_ai_control_room.Contracts.Enums.{SystemMode}
use sentinal_ai_control_room.Contracts.Values.{
  IntersectionState, HistoricalContext, Forecast, SignalCommand, SignalState, Incident, Explanation,
  AgentHealth,
}

pub data Payload : Type 0 where
  state_updated : IntersectionState → Payload
  baseline_updated : HistoricalContext → Payload
  prediction_updated : Forecast → Payload
  decision_made : SignalCommand → Payload
  signal_changed : Option SignalState → SignalState → Payload
  explanation_generated : Explanation → Payload
  incident_detected : Incident → Payload
  system_mode_changed : SystemMode → SystemMode → String → Payload
  agent_heartbeat : AgentHealth → Payload

pub record DomainEvent : Type 0 where
  pub source : String
  pub intersection_id : String
  pub correlation_id : Option String
  pub causation_id : Option String
  pub payload : Payload

pub record Delivered : Type 0 where
  pub event_id : String
  pub event : DomainEvent

-- The class variables `event_type`.
abbrev pub event_type : Payload → String
event_type (state_updated _) = "state.updated"
event_type (baseline_updated _) = "history.baseline.updated"
event_type (prediction_updated _) = "prediction.updated"
event_type (decision_made _) = "decision.made"
event_type (signal_changed _ _) = "signal.changed"
event_type (explanation_generated _) = "explanation.generated"
event_type (incident_detected _) = "incident.detected"
event_type (system_mode_changed _ _ _) = "system.mode.changed"
event_type (agent_heartbeat _) = "agent.heartbeat"

-- `event.correlation_id or event.event_id`: an empty correlation id counts as none.
abbrev pub or_id : Option String → String → String
or_id none id = id
or_id (some c) id = if c == "" then id else c

unfoldable pub correlation : Delivered → String
correlation e = or_id e.event.correlation_id e.event_id
