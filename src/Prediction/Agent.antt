-- ===== src/Prediction/Agent.antt =====
-- `PredictionAgent` of libs/sentinel/prediction/agent.py, with its default predictor. The history has a
-- window for each member of `Direction`, so it is a function.
use sentinal_ai_control_room.Prelude.{
  ℕ, ◌+◌, ◌-◌, Option, none, some, List, [], ◌∷◌, ◌++◌, String, length, drop, if◌then◌else◌, ◌==◌,
}
use sentinal_ai_control_room.Prelude.Dict.{keys}
use sentinal_ai_control_room.Prelude.Results.{Result, ok, raise}
use sentinal_ai_control_room.Config.{PredictionSettings}
use sentinal_ai_control_room.Contracts.Enums.{Direction, north, south, east, west, direction_eq}
use sentinal_ai_control_room.Contracts.Values.{IntersectionState, Forecast}
use sentinal_ai_control_room.Contracts.Events.{
  state_updated, prediction_updated, DomainEvent, Delivered, correlation,
}
use sentinal_ai_control_room.Prediction.Forecaster.{History, predict}

abbrev pub Window : Type 0
Window = List (ℕ × IntersectionState)

pub record PredictionAgent : Type 0 where
  pub history : Direction → Window
  pub elapsed_s : ℕ
  pub prev_ts : Option ℕ
  pub published : List DomainEvent

abbrev pub init : PredictionAgent
init = record { history = λ d. []; elapsed_s = 0; prev_ts = none; published = [] }

-- `append` of a `deque(maxlen=window)`.
abbrev pub push {ℓ} : {A : Type ℓ} → ℕ → List A → A → List A
push window xs x = (let ys = xs ++ x ∷ [] in drop (length ys - window) ys)

abbrev pub advance_clock : PredictionAgent → IntersectionState → PredictionAgent
advance_clock a state =
    let dt : ℕ = elim a.prev_ts [ none ↦ 0 | some prev ↦ state.timestamp - prev ] in
    record a { prev_ts = some state.timestamp; elapsed_s = a.elapsed_s + dt }

-- The loop over `state.lanes`.
unfoldable pub append_all :
    ℕ → List Direction → ℕ × IntersectionState → (Direction → Window) → Direction → Window
append_all window [] point history = history
append_all window (d ∷ ds) point history =
    append_all window ds point (λ e. if d == e then push window (history e) point else history e)

-- `{d: list(window) for d, window in self._history.items()}`
abbrev pub windows : (Direction → Window) → History
windows h = (north, h north) ∷ (south, h south) ∷ (east, h east) ∷ (west, h west) ∷ []

module _ (root : ℕ → ℕ) (s : PredictionSettings) (intersection_id : String) where
  abbrev pub forecast_event : Delivered → Forecast → DomainEvent
  forecast_event event forecast = record {
    source = "prediction-agent";
    intersection_id = intersection_id;
    correlation_id = some (correlation event);
    causation_id = some event.event_id;
    payload = prediction_updated forecast;
  }

  abbrev pub remember : IntersectionState → PredictionAgent → PredictionAgent
  remember state a =
      let b = advance_clock a state in
      record b {
        history = append_all s.trend_window (keys state.lanes) (b.elapsed_s, state) b.history;
      }

  -- `_on_state`: the agent as it leaves it, and whether it returns or raises.
  unfoldable pub on_state :
      Delivered → IntersectionState → PredictionAgent → PredictionAgent × Result (Unit {0})
  unfolding append_all
  on_state event state a =
      let b = remember state a in
      elim (predict root s.min_samples_for_trend intersection_id (windows b.history) s.horizon_s) [
        | raise e ↦ (b, raise e)
        | ok forecast ↦
            (record b { published = b.published ++ forecast_event event forecast ∷ [] }, ok tt)
      ]

  unfoldable pub receive : Delivered → PredictionAgent → PredictionAgent × Result (Unit {0})
  unfolding on_state
  receive event a = elim event.event.payload [
    | state_updated state ↦ on_state event state a
    | _ ↦ (a, ok tt)
  ]
