-- ===== src/Incident/Stamps.antt =====
-- The instants that the rules of libs/sentinel/incident/rules.py put on their incidents.
use sentinal_ai_control_room.Prelude.{
  ◌≡◌, refl, Option, none, some, List, [], ◌∷◌, ltb, inl, inr, Bool-cases, Option-cases, All,
}
use sentinal_ai_control_room.Prelude.Dict.{Dict}
use sentinal_ai_control_room.Config.{IncidentSettings}
use sentinal_ai_control_room.Contracts.Enums.{Axis, Direction, phase_axis, is_green}
use sentinal_ai_control_room.Contracts.Values.{
  LaneState, IntersectionState, HistoricalContext, Incident, baseline_for,
}
use sentinal_ai_control_room.Incident.Rules.{
  is_stalled, stalled_lanes, stalled_vehicle_rule, is_congested, congested_lanes,
  abnormal_congestion_rule,
}

module _ (s : IncidentSettings) where
  -- The rules stamp what they find with the snapshot's instant.
  abbrev pub IsStamped : IntersectionState → List Incident → Type 0
  IsStamped state = All (λ (q : Incident). q.detected_at ≡ state.timestamp)

  stalled-IsStamped :
      (state : IntersectionState) (axis : Axis) (lanes : Dict Direction LaneState)
      → IsStamped state (stalled_lanes s state axis lanes)
  unfolding stalled_lanes
  stalled-IsStamped state axis [] = tt
  stalled-IsStamped state axis ((d, lane) ∷ rest) =
      let ih = stalled-IsStamped state axis rest in
      elim (Bool-cases (is_stalled s state axis d lane)) [
        | inl e ↦ rw e (refl, ih)
        | inr e ↦ rw e ih
      ]

  congested-IsStamped :
      (state : IntersectionState) (b : HistoricalContext) (lanes : Dict Direction LaneState)
      → IsStamped state (congested_lanes s state b lanes)
  unfolding congested_lanes
  congested-IsStamped state b [] = tt
  congested-IsStamped state b ((d, lane) ∷ rest) =
      let ih = congested-IsStamped state b rest in
      elim (Option-cases (baseline_for b d)) [
        | inl e ↦ rw (congested_lanes, e) ih
        | inr (l, e) ↦ elim (Bool-cases (is_congested s state lane l)) [
          | inl f ↦ rw (congested_lanes, e, f) (refl, ih)
          | inr f ↦ rw (congested_lanes, e, f) ih
        ]
      ]

  pub stalled_rule-IsStamped :
      (state : IntersectionState) → IsStamped state (stalled_vehicle_rule s state)
  unfolding stalled_vehicle_rule
  stalled_rule-IsStamped state = elim (Option-cases (phase_axis state.current_phase)) [
    | inl e ↦ rw (stalled_vehicle_rule, e) tt
    | inr (axis, e) ↦ elim (Bool-cases (is_green state.current_phase)) [
      | inl g ↦ elim (Bool-cases (ltb state.phase_elapsed_s s.stalled_wait_s)) [
        | inl l ↦ rw (stalled_vehicle_rule, e, g, l) tt
        | inr l ↦ rw (stalled_vehicle_rule, e, g, l) (stalled-IsStamped state axis state.lanes)
      ]
      | inr g ↦ rw (stalled_vehicle_rule, e, g) tt
    ]
  ]

  pub congestion_rule-IsStamped :
      (state : IntersectionState) (b : Option HistoricalContext)
      → IsStamped state (abnormal_congestion_rule s state b)
  unfolding abnormal_congestion_rule
  congestion_rule-IsStamped state none = tt
  congestion_rule-IsStamped state (some b) = congested-IsStamped state b state.lanes
