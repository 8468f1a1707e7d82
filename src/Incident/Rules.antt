-- ===== src/Incident/Rules.antt =====
-- The rules of libs/sentinel/incident/rules.py. The description of an incident, a text, is left out.
use sentinal_ai_control_room.Prelude.{
  ℕ, ◌+◌, ◌-◌, ◌*◌, ◌/◌, min, Bool, not, ◌&&◌, Option, none, some, List, [], ◌∷◌, ltb, leb, nat_beq,
  if◌then◌else◌, ◌==◌,
}
use sentinal_ai_control_room.Prelude.Dict.{Dict}
use sentinal_ai_control_room.Config.{IncidentSettings, milli}
use sentinal_ai_control_room.Contracts.Enums.{
  Axis, Direction, stalled_vehicle, abnormal_congestion, medium, high, is_green, phase_axis,
  direction_axis, axis_eq,
}
use sentinal_ai_control_room.Contracts.Values.{
  LaneState, IntersectionState, LaneBaseline, HistoricalContext, Incident, baseline_for,
}

module _ (s : IncidentSettings) (state : IntersectionState) where
  abbrev pub stalled_incident : Direction → Incident
  stalled_incident direction = record {
    intersection_id = state.intersection_id;
    incident_type = stalled_vehicle;
    severity = high;
    direction = some direction;
    confidence = 700;
    detected_at = state.timestamp;
  }

  abbrev pub is_stalled : Axis → Direction → LaneState → Bool
  is_stalled axis direction lane =
      (direction_axis direction == axis) && ltb 0 lane.stopped_count && nat_beq lane.moving_count 0

  -- The loop of `StalledVehicleRule.evaluate`.
  unfoldable pub stalled_lanes : Axis → Dict Direction LaneState → List Incident
  stalled_lanes axis [] = []
  stalled_lanes axis ((direction, lane) ∷ rest) =
      let found = stalled_lanes axis rest in
      if is_stalled axis direction lane then stalled_incident direction ∷ found else found

  unfoldable pub stalled_vehicle_rule : List Incident
  stalled_vehicle_rule = elim (phase_axis state.current_phase) [
    | none ↦ []
    | some axis ↦
        (if not (is_green state.current_phase)
          then []
          else if ltb state.phase_elapsed_s s.stalled_wait_s
          then []
          else stalled_lanes axis state.lanes)
  ]

  -- A ratio of the vehicles to the average, in thousandths, and rounded down.
  abbrev pub ratio : LaneState → LaneBaseline → ℕ
  ratio lane b = milli (milli lane.vehicle_count) / b.avg_queue_veh

  abbrev pub congestion_incident : Direction → LaneState → LaneBaseline → Incident
  congestion_incident direction lane b = record {
    intersection_id = state.intersection_id;
    incident_type = abnormal_congestion;
    severity = medium;
    direction = some direction;
    confidence = min 950 (500 + (ratio lane b - s.congestion_ratio) / 10);
    detected_at = state.timestamp;
  }

  -- Whether the loop of `AbnormalCongestionRule.evaluate` gets to the incident; the ratio is compared
  -- by a product, without rounding.
  abbrev pub is_congested : LaneState → LaneBaseline → Bool
  is_congested lane b =
      leb s.congestion_min_baseline_samples b.sample_count
      && ltb 0 b.avg_queue_veh
      && leb (s.congestion_ratio * b.avg_queue_veh) (milli (milli lane.vehicle_count))

  unfoldable pub congested_lanes : HistoricalContext → Dict Direction LaneState → List Incident
  congested_lanes baseline [] = []
  congested_lanes baseline ((direction, lane) ∷ rest) =
      let found = congested_lanes baseline rest in
      elim (baseline_for baseline direction) [
        | none ↦ found
        | some b ↦
            (if is_congested lane b then congestion_incident direction lane b ∷ found else found)
      ]

  unfoldable pub abnormal_congestion_rule : Option HistoricalContext → List Incident
  unfolding congested_lanes
  abnormal_congestion_rule none = []
  abnormal_congestion_rule (some baseline) = congested_lanes baseline state.lanes
