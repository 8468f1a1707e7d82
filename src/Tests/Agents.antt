-- ===== src/Tests/Agents.antt =====
-- Runs of the prediction and explainability agents and of the service that raises incidents.
use sentinal_ai_control_room.Prelude.{
  ℕ, ◌-◌, ◌*◌, ◌≡◌, refl, Bool, true, false, not, ◌&&◌, Option, none, some, List, [], ◌∷◌, ◌++◌,
  map, String, if◌then◌else◌, nat_beq, string_eq, arith,
}
use sentinal_ai_control_room.Prelude.Dict.{listed, AllEntries}
use sentinal_ai_control_room.Prelude.Distinct.{AllDistinct}
use sentinal_ai_control_room.Prelude.Results.{ok, raise, value_error}
use sentinal_ai_control_room.Config.{default_prediction}
use sentinal_ai_control_room.Contracts.Enums.{
  Direction, north, west, east, Axis, ns_green, switch_phase, DensityLevel, SystemMode,
}
use sentinal_ai_control_room.Contracts.Values.{
  LaneState, IntersectionState, LaneForecast, Forecast, SignalCommand, Explanation, Incident,
}
use sentinal_ai_control_room.Contracts.Events.{state_updated, Delivered}
use sentinal_ai_control_room.Prediction.Forecaster.{Sample, fit_and_project}
use sentinal_ai_control_room.Prediction.Agent
use sentinal_ai_control_room.Prediction.Agent.{remember, forecast_event}
use sentinal_ai_control_room.Prediction.Bands.{IsBanded, on_state-IsBanded}
use sentinal_ai_control_room.Prediction.Steady.{fit_and_project-line}
use sentinal_ai_control_room.Explainability.Generator.{
  counterfactual_for_opposing_axis, template_text,
}
use sentinal_ai_control_room.Explainability.Agent.{
  ExplanationGenerator, ExplainabilityAgent, explanation_event, on_decision,
}
use sentinal_ai_control_room.Explainability.Narration.{
  is_blank, or_template, answer, on_decision-explains,
}
use sentinal_ai_control_room.Explainability.Counterfactual.{
  IsWorst, told, counterfactual_for_opposing_axis-IsWorst,
}
use sentinal_ai_control_room.Services.Incidents
use sentinal_ai_control_room.Services.Incidents.{
  ActiveKey, IncidentService, default_rule, detect, incident_event, active_key_eq,
}
use sentinal_ai_control_room.Services.Edges.{keys_of, published-on_state}

-- A toy in place of the square root, which keeps 0.
abbrev root : ℕ → ℕ
root n = n

abbrev lane : Bool → Direction × LaneState
lane emergency = (
  north,
  record {
    direction = north;
    vehicle_count = 9;
    moving_count = 0;
    stopped_count = 9;
    queue_length_m = 63_000;
    avg_wait_s = 95_000;
    occupancy_pct = 90_000;
    density = DensityLevel.jam;
    has_emergency_vehicle = emergency;
    pedestrian_waiting = false;
  },
)

abbrev snapshot : ℕ → Bool → IntersectionState
snapshot second emergency = record {
  intersection_id = "i1";
  timestamp = second * 1000;
  lanes = lane emergency ∷ [];
  current_phase = ns_green;
  phase_elapsed_s = 1000;
  mode = SystemMode.ai;
  perception_confidence = 1000;
}

abbrev event : ℕ → Bool → Delivered
event second emergency = record {
  event_id = "e1";
  event = record {
    source = "perception";
    intersection_id = "i1";
    correlation_id = none;
    causation_id = none;
    payload = state_updated (snapshot second emergency);
  };
}

on_state-IsBanded_example :
    (forecast : Forecast) × (Agent.on_state root default_prediction "i1"
        (event 3 false)
        (snapshot 3 false)
        Agent.init
      ≡ (
        record (remember root default_prediction "i1" (snapshot 3 false) Agent.init) {
          published =
              [] ++ forecast_event root default_prediction "i1" (event 3 false) forecast ∷ [];
        },
        ok tt,
      ))
    × AllEntries (IsBanded 60_000) forecast.lanes
    × (forecast.horizon_s ≡ 60_000)
on_state-IsBanded_example =
    on_state-IsBanded root default_prediction "i1" (event 3 false) (snapshot 3 false) Agent.init
      (omega arith)

-- A hundred metres at the start, and half a metre less each second.
abbrev shrinking : ℕ → Sample
shrinking second = record { t = second * 1000; queue_len_m = 100_000 - second * 500; wait_s = 5000 }

abbrev halving : List Sample
halving = shrinking 0 ∷ shrinking 1 ∷ shrinking 2 ∷ shrinking 3 ∷ []

fit_and_project-line_example :
    ((fit_and_project root north halving (shrinking 3) 60_000).predicted_queue_length_m ≡ 68_500)
    × ((fit_and_project root north halving (shrinking 3) 60_000).lower_bound_m ≡ 68_500)
    × ((fit_and_project root north halving (shrinking 3) 60_000).upper_bound_m ≡ 68_500)
    × ((fit_and_project root north halving (shrinking 3) 60_000).confidence ≡ 950)
fit_and_project-line_example =
    fit_and_project-line root north (record { k = 2; a = 200_000; b = 0; c = 1; e = 0 }) 60_000
      halving (shrinking 3) refl (omega arith) (refl, (refl, (refl, (refl, tt)))) (omega arith)

abbrev forecast_of : Direction → ℕ → Direction × LaneForecast
forecast_of d queue = (
  d,
  record {
    direction = d;
    horizon_s = 60_000;
    predicted_queue_length_m = queue;
    predicted_wait_s = 0;
    confidence = 500;
    lower_bound_m = queue;
    upper_bound_m = queue;
  },
)

abbrev forecast : Forecast
forecast = record {
  intersection_id = "i1";
  horizon_s = 60_000;
  lanes = forecast_of north 9000 ∷ forecast_of east 4000 ∷ forecast_of west 40_000 ∷ [];
  model_version = "persistence-v1";
}

abbrev command : SignalCommand
command = record {
  intersection_id = "i1";
  action = switch_phase;
  target_phase = ns_green;
  duration_s = 1000;
  reason_code = "opposing_demand_higher";
  feature_snapshot = ("score_ns", 12_500) ∷ [];
  rejected_alternatives = [];
  constraints_applied = [];
  policy_version = "";
}

-- Toys in place of the number formats.
abbrev fixed : ℕ → ℕ → String
fixed decimals n = if nat_beq n 0 then "0" else "many"

abbrev percent : ℕ → String
percent n = if nat_beq n 0 then "0%" else "some%"

counterfactual_for_opposing_axis-IsWorst_example :
    (c : Option (Direction × LaneForecast)) × (counterfactual_for_opposing_axis fixed percent
        command
        (some forecast)
      ≡ told fixed percent 60_000 c)
    × IsWorst Axis.east_west forecast.lanes c
counterfactual_for_opposing_axis-IsWorst_example =
    counterfactual_for_opposing_axis-IsWorst fixed percent command forecast Axis.north_south refl

-- A narrator that is never there.
abbrev narrator : ExplanationGenerator
narrator = record {
  generate = λ c counterfactual. raise value_error;
  name = "llm:model";
  model_id = some "model";
}

abbrev explainer : ExplainabilityAgent
explainer = record { forecast = some forecast; published = [] }

on_decision-explains_example :
    (e : Explanation) × (on_decision fixed percent
        (some narrator)
        "i1"
        (event 3 false)
        command
        explainer
      ≡ (if is_blank (answer fixed percent narrator "i1" command (some forecast))
          then (explainer, raise value_error)
          else (
            record explainer {
              published =
                  [] ++ explanation_event fixed percent (some narrator) "i1" (event 3 false) e ∷ [];
            },
            ok tt,
          )))
    × (e.decision_reason_code ≡ "opposing_demand_higher")
    × (e.counterfactual ≡ counterfactual_for_opposing_axis fixed percent command (some forecast))
    × (e.text
        ≡ or_template (answer fixed percent narrator "i1" command (some forecast)) (
            template_text fixed percent command
              (counterfactual_for_opposing_axis fixed percent command (some forecast))))
on_decision-explains_example =
    on_decision-explains fixed percent narrator "i1" (event 3 false) command explainer refl

abbrev alarms : IncidentService
alarms = record { active_keys = []; published = [] }

-- An emergency vehicle comes to an approach that is jammed already.
published-on_state_example :
    (news : List Incident) × ((Incidents.on_state default_rule "a" 9
        (event 9 true)
        (snapshot 9 true)
        (Incidents.on_state default_rule "a" 3 (event 3 false) (snapshot 3 false) alarms)).published
      ≡ (Incidents.on_state default_rule "a" 3 (event 3 false) (snapshot 3 false) alarms).published
        ++ map (incident_event default_rule "a" (event 9 true)) news)
    × AllDistinct (keys_of news)
    × ((k : ActiveKey)
        → listed (keys_of news) k ≡ (
            listed (keys_of (detect default_rule 9 (snapshot 9 true))) k
            && not (listed (keys_of (detect default_rule 3 (snapshot 3 false))) k)))
published-on_state_example =
    published-on_state default_rule "a" 3 9 (event 3 false) (event 9 true) (snapshot 3 false)
      (snapshot 9 true) alarms
