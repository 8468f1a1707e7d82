-- ===== src/Explainability/Counterfactual.antt =====
-- The lane that the counterfactual of libs/sentinel/explainability/generator.py is about.
use sentinal_ai_control_room.Prelude.{
  ℕ, ◌≤◌, ◌≡◌, refl, false, Option, none, some, [], ◌∷◌, String, ltb, if◌then◌else◌, ◌==◌, inl, inr,
  Bool-cases, arith,
}
use sentinal_ai_control_room.Prelude.Dict.{Dict, AllEntries}
use sentinal_ai_control_room.Contracts.Enums.{Axis, Direction, direction_axis, phase_axis, axis_eq}
use sentinal_ai_control_room.Contracts.Values.{LaneForecast, Forecast, SignalCommand}
use sentinal_ai_control_room.Explainability.Generator.{
  candidates, worst_from, worst, opposing_axis, projection, counterfactual_for_opposing_axis,
}

-- What the search for the worst lane finds among the lanes of an axis.
abbrev pub IsWorst : Axis → Dict Direction LaneForecast → Option (Direction × LaneForecast) → Type 0
IsWorst axis lanes none = AllEntries (λ d f. (direction_axis d == axis) ≡ false) lanes
IsWorst axis lanes (some c) =
    (direction_axis c.0 ≡ axis)
    × AllEntries
        (λ d f. direction_axis d ≡ axis → f.predicted_queue_length_m ≤ c.1.predicted_queue_length_m)
        lanes

abbrev longer : Direction × LaneForecast → Direction × LaneForecast → Direction × LaneForecast
longer best c = if ltb best.1.predicted_queue_length_m c.1.predicted_queue_length_m then c else best

worst_from-grows :
    (best : Direction × LaneForecast) (rest : Dict Direction LaneForecast)
    → best.1.predicted_queue_length_m ≤ (worst_from best rest).1.predicted_queue_length_m
unfolding worst_from
worst_from-grows best [] = omega arith
worst_from-grows best (c ∷ rest) =
    let next = longer best c in
    let step : best.1.predicted_queue_length_m ≤ next.1.predicted_queue_length_m = ground arith in
    omega (arith, step, worst_from-grows next rest)

worst_from-greatest :
    (best : Direction × LaneForecast) (rest : Dict Direction LaneForecast)
    → AllEntries
        (λ d f. f.predicted_queue_length_m ≤ (worst_from best rest).1.predicted_queue_length_m)
        rest
unfolding worst_from
worst_from-greatest best [] = tt
worst_from-greatest best (c ∷ rest) =
    let next = longer best c in
    let grown = worst_from-grows next rest in
    let own : c.1.predicted_queue_length_m ≤ next.1.predicted_queue_length_m = ground arith in
    (omega (arith, own, grown), worst_from-greatest next rest)

worst_from-axis :
    (axis : Axis) (best : Direction × LaneForecast) (rest : Dict Direction LaneForecast)
    → direction_axis best.0 ≡ axis
    → AllEntries (λ d f. direction_axis d ≡ axis) rest
    → direction_axis (worst_from best rest).0 ≡ axis
unfolding worst_from
worst_from-axis axis best [] own all = own
worst_from-axis axis best (c ∷ rest) own all =
    let next = longer best c in
    let step : direction_axis next.0 ≡ axis =
      elim (Bool-cases (ltb best.1.predicted_queue_length_m c.1.predicted_queue_length_m)) [
        | inl h ↦ rw h all.0
        | inr h ↦ rw h own
      ] in
    worst_from-axis axis next rest step all.1

candidates-axis :
    (axis : Axis) (lanes : Dict Direction LaneForecast)
    → AllEntries (λ d f. direction_axis d ≡ axis) (candidates axis lanes)
unfolding candidates
candidates-axis axis [] = tt
candidates-axis axis ((d, f) ∷ rest) = elim (Bool-cases (direction_axis d == axis)) [
  | inl h ↦ rw h ((axis_eq.test_iff (direction_axis d) axis).0 h, candidates-axis axis rest)
  | inr h ↦ rw h (candidates-axis axis rest)
]

-- What holds of every candidate holds of every lane of the axis.
candidates-all {κ} :
    (P : Direction → LaneForecast → Type κ) (axis : Axis) (lanes : Dict Direction LaneForecast)
    → AllEntries P (candidates axis lanes)
    → AllEntries (λ d f. direction_axis d ≡ axis → P d f) lanes
unfolding candidates
candidates-all P axis [] a = tt
candidates-all P axis ((d, f) ∷ rest) a = elim (Bool-cases (direction_axis d == axis)) [
  | inl h ↦
      (let b : P d f × AllEntries P (candidates axis rest) = rw h at a in
        (λ same. b.0, candidates-all P axis rest b.1))
  | inr h ↦ (
    λ same. (let t = (axis_eq.test_iff (direction_axis d) axis).1 same in absurd (cc)),
    candidates-all P axis rest (rw h at a),
  )
]

candidates-none :
    (axis : Axis) (lanes : Dict Direction LaneForecast)
    → candidates axis lanes ≡ []
    → AllEntries (λ d f. (direction_axis d == axis) ≡ false) lanes
unfolding candidates
candidates-none axis [] e = tt
candidates-none axis ((d, f) ∷ rest) e = elim (Bool-cases (direction_axis d == axis)) [
  | inl h ↦ (let k : (d, f) ∷ candidates axis rest ≡ [] = rw h at e in absurd (cc))
  | inr h ↦ (h, candidates-none axis rest (rw h at e))
]

worst-candidates :
    (axis : Axis) (lanes : Dict Direction LaneForecast)
    → IsWorst axis lanes (worst (candidates axis lanes))
worst-candidates axis lanes = go (candidates axis lanes) refl
  where
    go :
        (found : Dict Direction LaneForecast)
        → candidates axis lanes ≡ found
        → IsWorst axis lanes (worst found)
    go [] e = candidates-none axis lanes e
    go (c ∷ rest) e =
        let on_axis : AllEntries (λ d f. direction_axis d ≡ axis) (c ∷ rest) =
          rw e at (candidates-axis axis lanes) in
        let best = worst_from c rest in
        (
          worst_from-axis axis c rest on_axis.0 on_axis.1,
          candidates-all (λ d f. f.predicted_queue_length_m ≤ best.1.predicted_queue_length_m) axis
              lanes (rw e (worst_from-grows c rest, worst_from-greatest c rest)),
        )

abbrev pub told :
    (fixed : ℕ → ℕ → String) (percent : ℕ → String)
    → ℕ
    → Option (Direction × LaneForecast)
    → Option String
told fixed percent horizon_s none = none
told fixed percent horizon_s (some c) = some (projection fixed percent horizon_s c)

told-elim :
    (fixed : ℕ → ℕ → String) (percent : ℕ → String) (horizon_s : ℕ)
    (c : Option (Direction × LaneForecast))
    → (elim c as (λ x. Option String) [
      | none ↦ none
      | some d ↦ some (projection fixed percent horizon_s d)
    ])
      ≡ told fixed percent horizon_s c
told-elim fixed percent horizon_s none = refl
told-elim fixed percent horizon_s (some c) = refl

-- The counterfactual of a decision for an axis, given a forecast, is told of a lane of the opposing
-- axis, of which no lane is predicted a longer queue; there is none exactly if the forecast has no
-- lane of the opposing axis.
pub counterfactual_for_opposing_axis-IsWorst :
    (fixed : ℕ → ℕ → String) (percent : ℕ → String) (command : SignalCommand) (forecast : Forecast)
    (axis : Axis)
    → phase_axis command.target_phase ≡ some axis
    → (c : Option (Direction × LaneForecast)) × (counterfactual_for_opposing_axis fixed percent
          command
          (some forecast)
        ≡ told fixed percent forecast.horizon_s c)
      × IsWorst (opposing_axis axis) forecast.lanes c
unfolding counterfactual_for_opposing_axis
counterfactual_for_opposing_axis-IsWorst fixed percent command forecast axis h =
    let c = worst (candidates (opposing_axis axis) forecast.lanes) in
    (
      c,
      rw (counterfactual_for_opposing_axis, h) (told-elim fixed percent forecast.horizon_s c),
      worst-candidates (opposing_axis axis) forecast.lanes,
    )
