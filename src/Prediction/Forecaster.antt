-- ===== src/Prediction/Forecaster.antt =====
-- libs/sentinel/prediction/forecaster.py. The line of the least squares is kept as a fraction of
-- natural numbers: what would be subtracted is on the side of the minus. `root` is the square root
-- `x ** 0.5`. Quotients are rounded down to thousandths.
use sentinal_ai_control_room.Prelude.{
  ℕ, ◌+◌, ◌-◌, ◌*◌, ◌/◌, min, max, ◌&&◌, Option, none, some, List, [], ◌∷◌, String, map, sum,
  length, ltb, leb, nat_beq, if◌then◌else◌,
}
use sentinal_ai_control_room.Prelude.Dict
use sentinal_ai_control_room.Prelude.Dict.{Dict}
use sentinal_ai_control_room.Prelude.Results.{
  Result, ok, raise, value_error, zero_division_error, ◌>>=◌,
}
use sentinal_ai_control_room.Contracts.Enums.{Direction, direction_eq}
use sentinal_ai_control_room.Contracts.Values.{LaneState, IntersectionState, LaneForecast, Forecast}
use sentinal_ai_control_room.Perception.Geometry.{difference}

-- `_Sample`.
pub record Sample : Type 0 where
  pub t : ℕ
  pub queue_len_m : ℕ
  pub wait_s : ℕ

abbrev pub History : Type 0
History = Dict Direction (List (ℕ × IntersectionState))

-- Building a `LaneForecast`, with `_check_bounds` and the bound on `Confidence`. The horizon is that
-- of the settings, whose own check has found it positive.
unfoldable pub check_bounds : LaneForecast → Result LaneForecast
check_bounds f =
    if leb f.lower_bound_m f.predicted_queue_length_m
      && leb f.predicted_queue_length_m f.upper_bound_m
      && leb f.confidence 1000
    then ok f
    else raise value_error

-- `xs[-1]`, of a list that may be empty.
abbrev pub last_of {ℓ} : {A : Type ℓ} → List A → Option A
last_of [] = none
last_of (x ∷ []) = some x
last_of (x ∷ y ∷ rest) = last_of (y ∷ rest)

abbrev pub persistent : Direction → ℕ → LaneState → LaneForecast
persistent direction horizon_s lane = record {
  direction = direction;
  horizon_s = horizon_s;
  predicted_queue_length_m = lane.queue_length_m;
  predicted_wait_s = lane.avg_wait_s;
  confidence = 500;
  lower_bound_m = lane.queue_length_m;
  upper_bound_m = lane.queue_length_m;
}

-- The lane of the latest snapshot, if there is one.
abbrev pub latest_lane : Direction → List (ℕ × IntersectionState) → Option LaneState
latest_lane direction points = elim (last_of points) [
  | none ↦ none
  | some point ↦ Dict.get point.1.lanes direction
]

-- The loop of `PersistenceForecaster.predict`.
unfoldable pub persist_all : ℕ → History → Result (Dict Direction LaneForecast)
persist_all horizon_s [] = ok []
persist_all horizon_s ((direction, points) ∷ rest) =
    let more = persist_all horizon_s rest in
    elim (latest_lane direction points) [
      | none ↦ more
      | some lane ↦
          check_bounds (persistent direction horizon_s lane)
          >>= (λ f. more >>= (λ lanes. ok ((direction, f) ∷ lanes)))
    ]

-- The comprehension of the samples.
unfoldable pub samples_of : Direction → List (ℕ × IntersectionState) → List Sample
samples_of direction [] = []
samples_of direction ((t, state) ∷ rest) =
    let more = samples_of direction rest in
    elim (Dict.get state.lanes direction) [
      | none ↦ more
      | some lane ↦
          record { t = t; queue_len_m = lane.queue_length_m; wait_s = lane.avg_wait_s } ∷ more
    ]

-- The line through the samples: its slope is `(plus - minus) / var`, and it passes through the point
-- of the means, of the sums `sum_t` and `sum_q` over `n`.
pub record Line : Type 0 where
  pub n : ℕ
  pub sum_t : ℕ
  pub sum_q : ℕ
  pub plus : ℕ
  pub minus : ℕ
  pub var : ℕ

abbrev pub sum_of : (Sample → ℕ) → List Sample → ℕ
sum_of f samples = sum (map f samples)

-- `_least_squares`, less the residuals, with the sum of squares and that of products times `n`. With no
-- variance the slope is 0.
unfoldable pub least_squares : List Sample → Line
least_squares samples =
    let n = length samples in
    let sum_t = sum_of (λ s. s.t) samples in
    let sum_q = sum_of (λ s. s.queue_len_m) samples in
    let var = n * sum_of (λ s. s.t * s.t) samples - sum_t * sum_t in
    if nat_beq var 0
    then record { n = n; sum_t = sum_t; sum_q = sum_q; plus = 0; minus = 0; var = 1 }
    else record {
      n = n;
      sum_t = sum_t;
      sum_q = sum_q;
      plus = n * sum_of (λ s. s.t * s.queue_len_m) samples;
      minus = sum_t * sum_q;
      var = var;
    }

-- `max(0.0, slope * t + intercept)`
unfoldable pub value_at : Line → ℕ → ℕ
value_at l t =
    (l.sum_q * l.var
      + l.plus * (l.n * t)
      + l.minus * l.sum_t
      - (l.minus * (l.n * t) + l.plus * l.sum_t))
    / (l.n * l.var)

-- A residual times `n * var`, without its sign.
abbrev pub residual : Line → Sample → ℕ
residual l s =
    difference (l.n * s.queue_len_m * l.var + l.minus * (l.n * s.t) + l.plus * l.sum_t)
      (l.sum_q * l.var + l.plus * (l.n * s.t) + l.minus * l.sum_t)

unfoldable pub residual_std : (ℕ → ℕ) → Line → List Sample → ℕ
residual_std root l samples =
    root (sum_of (λ s. residual l s * residual l s) samples / (l.n * (l.n * l.var * (l.n * l.var))))

-- The forecast from a fitted value: `_fit_and_project` from `scale` on. The two clamps at its end
-- change nothing, as the value lies within its band.
abbrev pub projected : Direction → ℕ → Sample → ℕ → ℕ → LaneForecast
projected direction horizon_s latest predicted std =
    let margin = std * 196 / 100 in
    let lower = predicted - margin in
    let upper = predicted + margin in
    let raised = if ltb predicted lower then lower else predicted in
    let clamped = if ltb upper raised then upper else raised in
    record {
      direction = direction;
      horizon_s = horizon_s;
      predicted_queue_length_m = clamped;
      predicted_wait_s =
          if ltb 0 latest.queue_len_m
          then latest.wait_s * clamped / latest.queue_len_m
          else latest.wait_s;
      confidence = max 50 (min 950 (1000 - std * 1000 / max 1000 latest.queue_len_m));
      lower_bound_m = lower;
      upper_bound_m = upper;
    }

module _ (root : ℕ → ℕ) where
  unfoldable pub fit_and_project : Direction → List Sample → Sample → ℕ → LaneForecast
  unfolding least_squares value_at residual_std
  fit_and_project direction samples latest horizon_s =
      let line = least_squares samples in
      projected direction horizon_s latest (value_at line (latest.t + horizon_s))
        (residual_std root line samples)

  -- The forecast of a lane: the trend, or with too few samples what the fallback has. `samples[-1]`
  -- of no samples raises, where `min_samples` is 0.
  unfoldable pub predict_lane :
      ℕ
      → ℕ
      → Direction
      → List (ℕ × IntersectionState)
      → Dict Direction LaneForecast
      → Result (Option LaneForecast)
  unfolding fit_and_project samples_of
  predict_lane min_samples horizon_s direction points fallback_lanes =
      let samples = samples_of direction points in
      if ltb (length samples) min_samples
      then ok (Dict.get fallback_lanes direction)
      else (elim (last_of samples) [
        | none ↦ raise zero_division_error
        | some latest ↦
            check_bounds (fit_and_project direction samples latest horizon_s) >>= (λ f. ok (some f))
      ])

  unfoldable pub predict_lanes :
      ℕ → ℕ → History → Dict Direction LaneForecast → Result (Dict Direction LaneForecast)
  unfolding predict_lane
  predict_lanes min_samples horizon_s [] fallback_lanes = ok []
  predict_lanes min_samples horizon_s ((direction, points) ∷ rest) fallback_lanes = do
    found ← predict_lane min_samples horizon_s direction points fallback_lanes
    more ← predict_lanes min_samples horizon_s rest fallback_lanes
    ok (elim found [ none ↦ more | some f ↦ (direction, f) ∷ more ])

  -- `LinearTrendForecaster.predict`, with the persistence forecast as its fallback.
  unfoldable pub predict : ℕ → String → History → ℕ → Result Forecast
  unfolding persist_all predict_lanes
  predict min_samples intersection_id history horizon_s = do
    fallback_lanes ← persist_all horizon_s history
    lanes ← predict_lanes min_samples horizon_s history fallback_lanes
    ok (record {
      intersection_id = intersection_id;
      horizon_s = horizon_s;
      lanes = lanes;
      model_version = "linear-trend-v1";
    })
