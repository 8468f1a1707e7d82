-- ===== src/Decision/Utility.antt =====
-- The utility of serving an axis, written out over the approaches, beside `_metrics` and `_score` of
-- libs/sentinel/decision/policy.py.
use sentinal_ai_control_room.Prelude.{
  ℕ, ◌+◌, ◌*◌, ◌≡◌, refl, inl, inr, Bool, false, ◌||◌, ◌&&◌, Option, none, some, [], ◌∷◌, ◌==◌,
  if◌then◌else◌, Bool-cases, arith,
}
use sentinal_ai_control_room.Prelude.Dict
use sentinal_ai_control_room.Prelude.Dict.{Dict}
use sentinal_ai_control_room.Config.{DecisionSettings, milli}
use sentinal_ai_control_room.Contracts.Enums.{Axis, Direction, direction_axis, axis_eq}
use sentinal_ai_control_room.Contracts.Values.{LaneState, IntersectionState, LaneForecast, Forecast}
use sentinal_ai_control_room.Decision.Policy.{
  DecisionContext, on_axis, sum_by, any_by, predicted, get_or_zero, metrics, score,
}

-- A pedestrian waits at an approach of the axis.
abbrev pub has_pedestrian : Dict Direction LaneState → Axis → Bool
has_pedestrian [] axis = false
has_pedestrian ((d, lane) ∷ lanes) axis =
    (direction_axis d == axis && lane.pedestrian_waiting) || has_pedestrian lanes axis

-- The queues that are forecast for the approaches of the axis.
abbrev pub expected : Dict Direction LaneForecast → Axis → ℕ
expected [] axis = 0
expected ((d, f) ∷ lanes) axis =
    (if direction_axis d == axis then f.predicted_queue_length_m else 0) + expected lanes axis

abbrev pub expected_in : Option Forecast → Axis → ℕ
expected_in none axis = 0
expected_in (some f) axis = expected f.lanes axis

module _ (s : DecisionSettings) where
  -- Each approach of the axis counts for its vehicles and for its average wait.
  abbrev pub lanes_demand : Dict Direction LaneState → Axis → ℕ
  lanes_demand [] axis = 0
  lanes_demand ((d, lane) ∷ lanes) axis =
      (if direction_axis d == axis
        then s.weight_queue * (lane.vehicle_count * 1000) + s.weight_wait * lane.avg_wait_s
        else 0)
      + lanes_demand lanes axis

  -- The demand of an axis: its approaches, a waiting pedestrian, and what is forecast.
  abbrev pub demand : IntersectionState → Option Forecast → Axis → ℕ
  demand state forecast axis =
      lanes_demand state.lanes axis
      + (if has_pedestrian state.lanes axis then s.weight_pedestrian * 1000 else 0)
      + s.weight_prediction * expected_in forecast axis

  -- The demand, and the time since the axis was green.
  abbrev pub utility : DecisionContext → Axis → ℕ
  utility c axis =
      demand c.state c.forecast axis
      + s.weight_fairness * get_or_zero (Dict.get c.since_green_s axis)

  sums-lanes_demand :
      (lanes : Dict Direction LaneState) (axis : Axis)
      → s.weight_queue * milli (sum_by (λ (l : LaneState). l.vehicle_count) (on_axis lanes axis))
          + s.weight_wait * sum_by (λ (l : LaneState). l.avg_wait_s) (on_axis lanes axis)
        ≡ lanes_demand lanes axis
  unfolding on_axis sum_by
  sums-lanes_demand [] axis = omega arith
  sums-lanes_demand ((d, lane) ∷ lanes) axis = elim (Bool-cases (direction_axis d == axis)) [
    | inl h ↦ rw (h, on_axis) (omega (arith, sums-lanes_demand lanes axis))
    | inr h ↦ rw (h, on_axis) (omega (arith, sums-lanes_demand lanes axis))
  ]

any-has_pedestrian :
    (lanes : Dict Direction LaneState) (axis : Axis)
    → any_by (λ (l : LaneState). l.pedestrian_waiting) (on_axis lanes axis)
      ≡ has_pedestrian lanes axis
unfolding on_axis any_by
any-has_pedestrian [] axis = refl
any-has_pedestrian ((d, lane) ∷ lanes) axis = ground (arith, any-has_pedestrian lanes axis)

sum-expected :
    (lanes : Dict Direction LaneForecast) (axis : Axis)
    → sum_by (λ (l : LaneForecast). l.predicted_queue_length_m) (on_axis lanes axis)
      ≡ expected lanes axis
unfolding on_axis sum_by
sum-expected [] axis = refl
sum-expected ((d, f) ∷ lanes) axis = ground (arith, sum-expected lanes axis)

predicted-expected_in : (f : Option Forecast) (axis : Axis) → predicted f axis ≡ expected_in f axis
unfolding predicted
predicted-expected_in none axis = refl
predicted-expected_in (some f) axis = sum-expected f.lanes axis

-- The score that the policy gives an axis is its utility.
pub score-utility :
    (s : DecisionSettings) (c : DecisionContext) (axis : Axis)
    → score s (metrics c axis) ≡ utility s c axis
unfolding score metrics
score-utility s c axis =
    let lanes = c.state.lanes in
    let one = sums-lanes_demand s lanes axis in
    let two = any-has_pedestrian lanes axis in
    let three = predicted-expected_in c.forecast axis in
    rw (two, three)
      (elim (Bool-cases (has_pedestrian lanes axis)) [
        | inl h ↦ rw h (omega (arith, one))
        | inr h ↦ rw h (omega (arith, one))
      ])
