-- ===== src/Explainability/Generator.antt =====
-- libs/sentinel/explainability/generator.py. `fixed` is Python's format of a number with decimals, and
-- `percent` the one of a percentage, both of thousandths.
use Prim.Native.String.{◌++◌}
use sentinal_ai_control_room.Prelude.{
  ℕ, Option, none, some, [], ◌∷◌, String, ltb, if◌then◌else◌, ◌==◌, string_eq,
}
use sentinal_ai_control_room.Prelude.Dict
use sentinal_ai_control_room.Prelude.Dict.{Dict}
use sentinal_ai_control_room.Contracts.Enums.{
  Axis, north_south, east_west, Direction, north, south, east, west, phase_axis, direction_axis,
  axis_eq,
}
use sentinal_ai_control_room.Contracts.Values.{SignalCommand, Forecast, LaneForecast}

abbrev pub axis_label : Option Axis → String
axis_label none = "the intersection"
axis_label (some north_south) = "North-South"
axis_label (some east_west) = "East-West"

pub record AxisFeatures : Type 0 where
  pub queue : ℕ
  pub wait : ℕ
  pub since_green : ℕ
  pub score : ℕ

-- `snap.get(key, 0.0)`
abbrev pub feature : Dict String ℕ → String → ℕ
feature snap key = elim (Dict.get snap key) [ none ↦ 0 | some value ↦ value ]

abbrev pub suffix_of : Option Axis → String
suffix_of (some north_south) = "ns"
suffix_of _ = "ew"

unfoldable pub axis_features : SignalCommand → AxisFeatures
axis_features command =
    let suffix = suffix_of (phase_axis command.target_phase) in
    let snap = command.feature_snapshot in
    record {
      queue = feature snap ("queue_" ++ suffix);
      wait = feature snap ("wait_" ++ suffix);
      since_green = feature snap ("since_green_" ++ suffix);
      score = feature snap ("score_" ++ suffix);
    }

-- The enumeration's values.
abbrev pub direction_value : Direction → String
direction_value north = "north"
direction_value south = "south"
direction_value east = "east"
direction_value west = "west"

abbrev pub opposing_axis : Axis → Axis
opposing_axis north_south = east_west
opposing_axis east_west = north_south

-- The comprehension of the candidates.
unfoldable pub candidates : Axis → Dict Direction LaneForecast → Dict Direction LaneForecast
candidates axis [] = []
candidates axis ((d, f) ∷ rest) =
    let more = candidates axis rest in if direction_axis d == axis then (d, f) ∷ more else more

-- Python's `max` by the predicted queue: the first of the greatest.
unfoldable pub worst_from :
    Direction × LaneForecast → Dict Direction LaneForecast → Direction × LaneForecast
worst_from best [] = best
worst_from best (c ∷ rest) =
    worst_from
      (if ltb best.1.predicted_queue_length_m c.1.predicted_queue_length_m then c else best) rest

abbrev pub worst : Dict Direction LaneForecast → Option (Direction × LaneForecast)
worst [] = none
worst (c ∷ rest) = some (worst_from c rest)

module _ (fixed : ℕ → ℕ → String) (percent : ℕ → String) where
  abbrev pub projection : ℕ → Direction × LaneForecast → String
  projection horizon_s (direction, f) =
      "If "
      ++ direction_value direction
      ++ " stays unserved, its queue is projected to reach ~"
      ++ fixed 0 f.predicted_queue_length_m
      ++ "m in "
      ++ fixed 0 horizon_s
      ++ "s (confidence "
      ++ percent f.confidence
      ++ ")."

  unfoldable pub counterfactual_for_opposing_axis : SignalCommand → Option Forecast → Option String
  unfolding candidates worst_from
  counterfactual_for_opposing_axis command none = none
  counterfactual_for_opposing_axis command (some forecast) =
      elim (phase_axis command.target_phase) [
        | none ↦ none
        | some axis ↦ (elim (worst (candidates (opposing_axis axis) forecast.lanes)) [
          | none ↦ none
          | some c ↦ some (projection forecast.horizon_s c)
        ])
      ]

  -- The template of `_TEMPLATES` for a reason, or the one for all others, with its fields filled in.
  unfoldable pub render : String → String → AxisFeatures → String
  render reason axis f =
      if reason == "current_axis_serving"
      then axis
        ++ " remains green because it currently has the greater demand (queue "
        ++ fixed 0 f.queue
        ++ " vehicles, wait "
        ++ fixed 0 f.wait
        ++ "s)."
      else if reason == "current_axis_congested"
      then axis
        ++ " green was extended because its queue ("
        ++ fixed 0 f.queue
        ++ " vehicles) exceeds the congestion threshold."
      else if reason == "current_axis_clearing"
      then axis ++ " green will be released soon since its queue has cleared."
      else if reason == "opposing_demand_higher"
      then "Switching to "
        ++ axis
        ++ " because its demand score ("
        ++ fixed 1 f.score
        ++ ") now exceeds the previously active axis."
      else if reason == "fairness_anti_starvation"
      then "Switching to "
        ++ axis
        ++ " to guarantee it is served after waiting "
        ++ fixed 0 f.since_green
        ++ "s without green (fairness guarantee)."
      else if reason == "emergency_preemption"
      then "EMERGENCY OVERRIDE: preempting the signal to clear the path for an emergency vehicle on "
        ++ axis ++ "."
      else if reason == "clearance_interval"
      then "Signal is mid-transition (yellow/all-red clearance) before serving " ++ axis ++ "."
      else axis ++ ": " ++ reason

  -- `if counterfactual`: an empty one counts as none.
  abbrev pub add_counterfactual : String → Option String → String
  add_counterfactual text none = text
  add_counterfactual text (some c) = if c == "" then text else text ++ " " ++ c

  -- `TemplateExplainer.generate`.
  unfoldable pub template_text : SignalCommand → Option String → String
  unfolding render axis_features
  template_text command counterfactual =
      add_counterfactual
        (render command.reason_code (axis_label (phase_axis command.target_phase))
          (axis_features command))
        counterfactual
