-- ===== src/Incident/Agent.antt =====
-- `IncidentDetectionAgent` of libs/sentinel/incident/agent.py, with its two default rules.
use sentinal_ai_control_room.Prelude.{
  ℕ, ◌+◌, Bool, ◌&&◌, true, false, ◌≡◌, ◌↔◌, Eq, Option, none, some, List, [], ◌∷◌, ◌++◌, String,
  ltb, if◌then◌else◌, arith,
}
use sentinal_ai_control_room.Prelude.Dict
use sentinal_ai_control_room.Prelude.Dict.{Dict}
use sentinal_ai_control_room.Config.{IncidentSettings}
use sentinal_ai_control_room.Contracts.Enums.{
  Direction, north, IncidentType, direction_beq, direction_beq_iff, type_beq, type_beq_iff,
}
use sentinal_ai_control_room.Contracts.Values.{IntersectionState, HistoricalContext, Incident}
use sentinal_ai_control_room.Contracts.Events.{
  Payload, state_updated, baseline_updated, incident_detected, DomainEvent, Delivered, correlation,
}
use sentinal_ai_control_room.Incident.Rules.{stalled_vehicle_rule, abnormal_congestion_rule}

-- The key of the debounce table.
pub record Key : Type 0 where
  pub direction : Direction
  pub incident_type : IncidentType

abbrev pub key_beq : Key → Key → Bool
key_beq a b = direction_beq a.direction b.direction && type_beq a.incident_type b.incident_type

pub key_beq_iff : (a b : Key) → (key_beq a b ≡ true) ↔ (a ≡ b)
key_beq_iff a b =
    ground (
      arith,
      direction_beq_iff a.direction b.direction,
      type_beq_iff a.incident_type b.incident_type,
    )

instance abbrev pub key_eq : Eq Key
key_eq = record { test = key_beq; test_iff = key_beq_iff }

pub record IncidentDetectionAgent : Type 0 where
  pub baseline : Option HistoricalContext
  pub last_raised : Dict Key ℕ
  pub published : List DomainEvent

unfoldable pub init : IncidentDetectionAgent
init = record { baseline = none; last_raised = []; published = [] }

-- `incident.direction or Direction.NORTH`
abbrev pub direction_or_north : Option Direction → Direction
direction_or_north none = north
direction_or_north (some d) = d

abbrev pub key_of : Incident → Key
key_of i = record { direction = direction_or_north i.direction; incident_type = i.incident_type }

module _ (s : IncidentSettings) (intersection_id : String) where
  -- `now - last < debounce_s`
  abbrev pub too_soon : ℕ → Option ℕ → Bool
  too_soon now none = false
  too_soon now (some last) = ltb now (last + s.debounce_s)

  abbrev pub incident_event : Delivered → Incident → DomainEvent
  incident_event event incident = record {
    source = "incident-detection";
    intersection_id = intersection_id;
    correlation_id = some (correlation event);
    causation_id = some event.event_id;
    payload = incident_detected incident;
  }

  -- The body of the loop in `_on_state`.
  unfoldable pub raise_incident :
      Delivered → ℕ → IncidentDetectionAgent → Incident → IncidentDetectionAgent
  raise_incident event now a incident =
      if too_soon now (Dict.get a.last_raised (key_of incident)) then a else record a {
        last_raised = Dict.set a.last_raised (key_of incident) now;
        published = a.published ++ incident_event event incident ∷ [];
      }

  unfoldable pub raise_all :
      Delivered → ℕ → IncidentDetectionAgent → List Incident → IncidentDetectionAgent
  unfolding raise_incident
  raise_all event now a [] = a
  raise_all event now a (incident ∷ rest) =
      raise_all event now (raise_incident event now a incident) rest

  -- `_on_state`. No rule changes the baseline, so both look at the same.
  unfoldable pub on_state :
      IncidentDetectionAgent → Delivered → IntersectionState → IncidentDetectionAgent
  unfolding raise_all
  on_state a event state =
      let now = state.timestamp in
      let stalled = raise_all event now a (stalled_vehicle_rule s state) in
      raise_all event now stalled (abnormal_congestion_rule s state a.baseline)

  unfoldable pub dispatch : IncidentDetectionAgent → Delivered → Payload → IncidentDetectionAgent
  dispatch a event (state_updated state) = on_state a event state
  dispatch a event (baseline_updated b) = record a { baseline = some b }
  dispatch a event _ = a

  unfoldable pub receive : IncidentDetectionAgent → Delivered → IncidentDetectionAgent
  unfolding dispatch
  receive a event = dispatch a event event.event.payload

  unfoldable pub receive_all : IncidentDetectionAgent → List Delivered → IncidentDetectionAgent
  receive_all a [] = a
  receive_all a (event ∷ rest) = receive_all (receive a event) rest
