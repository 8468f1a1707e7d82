-- ===== src/Prediction/Bands.antt =====
-- The forecasts of libs/sentinel/prediction are well-formed, so that `PredictionAgent` never fails.
use mathlib.Core.Path.{subst}
use sentinal_ai_control_room.Prelude.{
  ℕ, ◌+◌, ◌≤◌, ◌<◌, ◌≡◌, refl, Option, some, List, [], ◌∷◌, ◌++◌, String, length, ltb, inl, inr,
  Bool-cases, Option-cases, arith,
}
use sentinal_ai_control_room.Prelude.Dict
use sentinal_ai_control_room.Prelude.Dict.{Dict, keys, AllEntries, AllEntries-get}
use sentinal_ai_control_room.Prelude.Results.{ok}
use sentinal_ai_control_room.Config.{PredictionSettings}
use sentinal_ai_control_room.Contracts.Enums.{Direction, direction_eq}
use sentinal_ai_control_room.Contracts.Values.{IntersectionState, LaneForecast, Forecast}
use sentinal_ai_control_room.Contracts.Events.{Delivered}
use sentinal_ai_control_room.Prediction.Forecaster.{
  Sample, History, check_bounds, last_of, persistent, latest_lane, persist_all, samples_of,
  least_squares, value_at, residual_std, projected, fit_and_project, predict_lane, predict_lanes,
  predict,
}
use sentinal_ai_control_room.Prediction.Agent.{
  PredictionAgent, windows, forecast_event, remember, on_state,
}

-- A forecast of an approach that lies in its band, with a confidence from 5 to 95 percent.
pub record IsBanded (horizon_s : ℕ) (d : Direction) (f : LaneForecast) : Type 0 where
  pub direction : f.direction ≡ d
  pub horizon : f.horizon_s ≡ horizon_s
  pub lower : f.lower_bound_m ≤ f.predicted_queue_length_m
  pub upper : f.predicted_queue_length_m ≤ f.upper_bound_m
  pub least : 50 ≤ f.confidence
  pub most : f.confidence ≤ 950

check_bounds-IsBanded :
    (h : ℕ) (d : Direction) (f : LaneForecast) → IsBanded h d f → check_bounds f ≡ ok f
unfolding check_bounds
check_bounds-IsBanded h d f b = ground (arith, b.lower, b.upper, b.most)

projected-IsBanded :
    (d : Direction) (h : ℕ) (latest : Sample) (predicted std : ℕ)
    → IsBanded h d (projected d h latest predicted std)
projected-IsBanded d h latest predicted std = record {
  direction = refl;
  horizon = refl;
  lower = ground arith;
  upper = ground arith;
  least = omega arith;
  most = omega arith;
}

persist_all-IsBanded :
    (h : ℕ) (history : History)
    → (lanes : Dict Direction LaneForecast) × (persist_all h history ≡ ok lanes)
      × AllEntries (IsBanded h) lanes
unfolding persist_all
persist_all-IsBanded h [] = ([], refl, tt)
persist_all-IsBanded h ((d, points) ∷ rest) =
    let (lanes, e, b) = persist_all-IsBanded h rest in
    elim (Option-cases (latest_lane d points)) [
      | inl n ↦ (lanes, rw (persist_all, n) e, b)
      | inr (lane, n) ↦
          (let own : IsBanded h d (persistent d h lane) = record {
            direction = refl;
            horizon = refl;
            lower = omega arith;
            upper = omega arith;
            least = omega arith;
            most = omega arith;
          } in
            (
              (d, persistent d h lane) ∷ lanes,
              rw (persist_all, n, check_bounds-IsBanded h d (persistent d h lane) own, e) refl,
              (own, b),
            ))
    ]

last_of-some {ℓ} : {A : Type ℓ} (xs : List A) → 0 < length xs → (x : A) × (last_of xs ≡ some x)
last_of-some [] h = absurd (omega (arith, h))
last_of-some (x ∷ []) h = (x, refl)
last_of-some (x ∷ y ∷ rest) h = last_of-some (y ∷ rest) (omega arith)

module _ (root : ℕ → ℕ) (min_samples h : ℕ) (positive : 0 < min_samples) where
  predict_lane-IsBanded :
      (d : Direction) (points : List (ℕ × IntersectionState))
      (fallback : Dict Direction LaneForecast)
      → AllEntries (IsBanded h) fallback
      → (found : Option LaneForecast) × (predict_lane root min_samples h d points fallback
          ≡ ok found)
        × ((f : LaneForecast) → found ≡ some f → IsBanded h d f)
  unfolding predict_lane fit_and_project
  predict_lane-IsBanded d points fallback b =
      elim (Bool-cases (ltb (length (samples_of d points)) min_samples)) [
        | inl few ↦
            (Dict.get fallback d, rw few refl, λ f g. AllEntries-get (IsBanded h) fallback d f b g)
        | inr enough ↦
            (let samples = samples_of d points in
              let (latest, l) = last_of-some samples (ground (arith, positive)) in
              let f = fit_and_project root d samples latest h in
              let own : IsBanded h d f =
                projected-IsBanded d h latest (value_at (least_squares samples) (latest.t + h))
                  (residual_std root (least_squares samples) samples) in
              (
                some f,
                rw (enough, l, check_bounds-IsBanded h d f own) refl,
                λ g e. (let same : f ≡ g = cc in subst (IsBanded h d) same own),
              ))
      ]

  predict_lanes-IsBanded :
      (history : History) (fallback : Dict Direction LaneForecast)
      → AllEntries (IsBanded h) fallback
      → (lanes : Dict Direction LaneForecast) × (predict_lanes root min_samples h history fallback
          ≡ ok lanes)
        × AllEntries (IsBanded h) lanes
  unfolding predict_lanes
  predict_lanes-IsBanded [] fallback b = ([], refl, tt)
  predict_lanes-IsBanded ((d, points) ∷ rest) fallback b =
      let (found, e, own) = predict_lane-IsBanded d points fallback b in
      let (lanes, e', more) = predict_lanes-IsBanded rest fallback b in
      elim (Option-cases found) [
        | inl n ↦ (lanes, rw (e, e', n) refl, more)
        | inr (f, n) ↦ ((d, f) ∷ lanes, rw (e, e', n) refl, (own f n, more))
      ]

  predict-IsBanded :
      (id : String) (history : History)
      → (forecast : Forecast) × (predict root min_samples id history h ≡ ok forecast)
        × AllEntries (IsBanded h) forecast.lanes
        × (forecast.horizon_s ≡ h)
  unfolding predict
  predict-IsBanded id history =
      let (fallback, e, b) = persist_all-IsBanded h history in
      let (lanes, e', b') = predict_lanes-IsBanded history fallback b in
      (
        record {
          intersection_id = id;
          horizon_s = h;
          lanes = lanes;
          model_version = "linear-trend-v1";
        },
        rw (e, e') refl,
        b',
        refl,
      )

-- `PredictionAgent` does not raise on a snapshot, if its settings ask for a sample or more before a
-- trend is fitted: it publishes one forecast for the set horizon, in which every approach's predicted
-- queue lies in its band and has a confidence from 5 to 95 percent.
pub on_state-IsBanded :
    (root : ℕ → ℕ) (s : PredictionSettings) (id : String) (event : Delivered)
    (state : IntersectionState) (a : PredictionAgent)
    → 0 < s.min_samples_for_trend
    → (forecast : Forecast) × (on_state root s id event state a ≡ (
      record (remember root s id state a) {
        published = a.published ++ forecast_event root s id event forecast ∷ [];
      },
      ok tt,
    ))
      × AllEntries (IsBanded s.horizon_s) forecast.lanes
      × (forecast.horizon_s ≡ s.horizon_s)
unfolding on_state
on_state-IsBanded root s id event state a positive =
    let b = remember root s id state a in
    let (forecast, e, banded, same) =
      predict-IsBanded root s.min_samples_for_trend s.horizon_s positive id (windows b.history) in
    (forecast, rw (on_state, e) refl, banded, same)
