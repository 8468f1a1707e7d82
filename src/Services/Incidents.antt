-- ===== src/Services/Incidents.antt =====
-- `IncidentDetectionAgent` of libs/sentinel/services/agents.py, with the filter of `AgentService`.
-- The description of an incident, a text, is left out; `now` is the time that an incident is given.
-- The set of active keys is a list, of which only the membership is used. A rule's `min_confidence` is
-- a probability, as the default is, so that building an incident does not raise.
use sentinal_ai_control_room.Prelude.{
  ℕ, Bool, true, false, ◌&&◌, ◌≡◌, ◌↔◌, refl, Eq, Option, none, some, List, [], ◌∷◌, ◌++◌, String,
  leb, if◌then◌else◌, ◌==◌, string_eq, arith,
}
use sentinal_ai_control_room.Prelude.Dict
use sentinal_ai_control_room.Prelude.Dict.{Dict, listed}
use sentinal_ai_control_room.Contracts.Enums.{
  Direction, IncidentType, stalled_vehicle, abnormal_congestion, high, medium, jam, DensityLevel,
  direction_beq, direction_beq_iff, type_beq, type_beq_iff,
}
use sentinal_ai_control_room.Contracts.Values.{LaneState, IntersectionState, Incident}
use sentinal_ai_control_room.Contracts.Events.{
  state_updated, incident_detected, DomainEvent, Delivered, correlation,
}

pub record IncidentRule : Type 0 where
  pub jam_wait_s : ℕ
  pub jam_queue_m : ℕ
  pub min_confidence : ℕ

abbrev pub default_rule : IncidentRule
default_rule = record { jam_wait_s = 90_000; jam_queue_m = 50_000; min_confidence = 750 }

pub record ActiveKey : Type 0 where
  pub incident_type : IncidentType
  pub direction : Option Direction

abbrev pub same_direction : Option Direction → Option Direction → Bool
same_direction none none = true
same_direction (some d) (some e) = direction_beq d e
same_direction _ _ = false

same_direction_iff : (d e : Option Direction) → (same_direction d e ≡ true) ↔ (d ≡ e)
same_direction_iff none none = (λ h. refl, λ h. refl)
same_direction_iff none (some e) = (λ h. absurd (cc), λ h. absurd (cc))
same_direction_iff (some d) none = (λ h. absurd (cc), λ h. absurd (cc))
same_direction_iff (some d) (some e) = (
  λ h. let same : d ≡ e = (direction_beq_iff d e).0 h in cc,
  λ h. let same : d ≡ e = cc in (direction_beq_iff d e).1 same,
)

abbrev pub active_key_beq : ActiveKey → ActiveKey → Bool
active_key_beq a b =
    type_beq a.incident_type b.incident_type && same_direction a.direction b.direction

pub active_key_beq_iff : (a b : ActiveKey) → (active_key_beq a b ≡ true) ↔ (a ≡ b)
active_key_beq_iff a b = ground (
  arith,
  type_beq_iff a.incident_type b.incident_type,
  same_direction_iff a.direction b.direction,
)

instance abbrev pub active_key_eq : Eq ActiveKey
active_key_eq = record { test = active_key_beq; test_iff = active_key_beq_iff }

pub record IncidentService : Type 0 where
  pub active_keys : List ActiveKey
  pub published : List DomainEvent

abbrev pub is_jam : DensityLevel → Bool
is_jam jam = true
is_jam _ = false

-- `incident.incident_type, incident.direction`
abbrev pub key_of : Incident → ActiveKey
key_of i = record { incident_type = i.incident_type; direction = i.direction }

module _ (rule : IncidentRule) where
  abbrev pub is_jammed : LaneState → Bool
  is_jammed lane =
      is_jam lane.density
      && leb rule.jam_wait_s lane.avg_wait_s
      && leb rule.jam_queue_m lane.queue_length_m

  abbrev pub emergency_incident : String → ℕ → LaneState → Incident
  emergency_incident id now lane = record {
    intersection_id = id;
    incident_type = stalled_vehicle;
    severity = high;
    direction = some lane.direction;
    confidence = 800;
    detected_at = now;
  }

  abbrev pub jam_incident : String → ℕ → LaneState → Incident
  jam_incident id now lane = record {
    intersection_id = id;
    incident_type = abnormal_congestion;
    severity = medium;
    direction = some lane.direction;
    confidence = rule.min_confidence;
    detected_at = now;
  }

  -- The loop of `_detect`.
  unfoldable pub detect_lanes : String → ℕ → List LaneState → List Incident
  detect_lanes id now [] = []
  detect_lanes id now (lane ∷ rest) =
      let more = detect_lanes id now rest in
      let jams = if is_jammed lane then jam_incident id now lane ∷ more else more in
      if lane.has_emergency_vehicle then emergency_incident id now lane ∷ jams else jams

  unfoldable pub detect : ℕ → IntersectionState → List Incident
  unfolding detect_lanes
  detect now state = detect_lanes state.intersection_id now (Dict.values state.lanes)

  -- The loop of `_forget_resolved`.
  unfoldable pub active_of : List LaneState → List ActiveKey
  active_of [] = []
  active_of (lane ∷ rest) =
      let more = active_of rest in
      let jams =
        if is_jammed lane
        then record { incident_type = abnormal_congestion; direction = some lane.direction } ∷ more
        else more in
      if lane.has_emergency_vehicle
      then record { incident_type = stalled_vehicle; direction = some lane.direction } ∷ jams
      else jams

  -- `intersection_update`
  unfoldable pub intersect : List ActiveKey → List ActiveKey → List ActiveKey
  intersect [] active = []
  intersect (k ∷ ks) active =
      let rest = intersect ks active in if listed active k then k ∷ rest else rest

  unfoldable pub forget_resolved : IntersectionState → IncidentService → IncidentService
  unfolding active_of intersect
  forget_resolved state a = record a {
    active_keys = intersect a.active_keys (active_of (Dict.values state.lanes));
  }

  module _ (name : String) where
    abbrev pub incident_event : Delivered → Incident → DomainEvent
    incident_event event incident = record {
      source = name;
      intersection_id = event.event.intersection_id;
      correlation_id = some (correlation event);
      causation_id = some event.event_id;
      payload = incident_detected incident;
    }

    -- The loop of `_handle`.
    unfoldable pub raise_all : Delivered → IncidentService → List Incident → IncidentService
    raise_all event a [] = a
    raise_all event a (incident ∷ rest) =
        raise_all event
          (if listed a.active_keys (key_of incident) then a else record {
            active_keys = a.active_keys ++ key_of incident ∷ [];
            published = a.published ++ incident_event event incident ∷ [];
          })
          rest

    unfoldable pub on_state : ℕ → Delivered → IntersectionState → IncidentService → IncidentService
    unfolding raise_all forget_resolved detect
    on_state now event state a = forget_resolved state (raise_all event a (detect now state))

    -- `AgentService.handle`, and the test of the event's type in `_handle`.
    unfoldable pub handle : String → ℕ → Delivered → IncidentService → IncidentService
    unfolding on_state
    handle intersection_id now event a =
        if event.event.intersection_id == intersection_id
        then (elim event.event.payload [ state_updated state ↦ on_state now event state a | _ ↦ a ])
        else a
