-- ===== src/Config.antt =====
-- libs/sentinel/config/settings.py: the settings groups that the modelled agents read, with the
-- bounds that pydantic checks when a group is built. Seconds, metres, weights and ratios are counted
-- in thousandths.
use sentinal_ai_control_room.Prelude.{
  ℕ, ◌*◌, ◌≤◌, ◌<◌, ◌≡◌, Bool, ◌&&◌, leb, ltb, if◌then◌else◌, arith,
}
use sentinal_ai_control_room.Prelude.Results.{Result, ok, raise, value_error}

-- An integer as a quantity in thousandths.
abbrev pub milli : ℕ → ℕ
milli n = n * 1000

pub record DecisionSettings : Type 0 where
  pub min_green_s : ℕ
  pub max_green_s : ℕ
  pub yellow_s : ℕ
  pub all_red_s : ℕ
  pub max_starvation_s : ℕ
  pub queue_congestion_threshold_m : ℕ
  pub min_perception_confidence : ℕ
  pub weight_queue : ℕ
  pub weight_wait : ℕ
  pub weight_fairness : ℕ
  pub weight_pedestrian : ℕ
  pub weight_prediction : ℕ
  pub switch_penalty : ℕ

-- The bounds of the fields, `gt=0` and `le=1.0`.
fields_ok : DecisionSettings → Bool
fields_ok s =
    ltb 0 s.min_green_s
    && ltb 0 s.max_green_s
    && ltb 0 s.yellow_s
    && ltb 0 s.max_starvation_s
    && ltb 0 s.queue_congestion_threshold_m
    && leb s.min_perception_confidence 1000

-- `_check_green_bounds`.
check_green_bounds : DecisionSettings → Result DecisionSettings
check_green_bounds s =
    if ltb s.max_green_s s.min_green_s
    then raise value_error
    else if ltb s.max_starvation_s s.max_green_s
    then raise value_error
    else ok s

-- What pydantic does when a group is built: the fields first, then the model's validator.
unfoldable pub validate : DecisionSettings → Result DecisionSettings
unfolding fields_ok check_green_bounds
validate s = if fields_ok s then check_green_bounds s else raise value_error

pub record IsValid (s : DecisionSettings) : Type 0 where
  pub min_green_pos : 0 < s.min_green_s
  pub yellow_pos : 0 < s.yellow_s
  pub threshold_pos : 0 < s.queue_congestion_threshold_m
  pub confidence_le : s.min_perception_confidence ≤ 1000
  pub min-le-max : s.min_green_s ≤ s.max_green_s
  pub max-le-starvation : s.max_green_s ≤ s.max_starvation_s

-- The settings that can be built are those within the bounds, and building changes none.
pub validate-IsValid : (s : DecisionSettings) {t : DecisionSettings} → validate s ≡ ok t → IsValid t
unfolding validate
validate-IsValid s h = ground arith

abbrev pub default_decision : DecisionSettings
default_decision = record {
  min_green_s = 7000;
  max_green_s = 60000;
  yellow_s = 3000;
  all_red_s = 2000;
  max_starvation_s = 120000;
  queue_congestion_threshold_m = 15000;
  min_perception_confidence = 450;
  weight_queue = 1000;
  weight_wait = 400;
  weight_fairness = 150;
  weight_pedestrian = 10000;
  weight_prediction = 500;
  switch_penalty = 8000;
}

pub default_decision-IsValid : IsValid default_decision
default_decision-IsValid = omega arith

pub record MemorySettings : Type 0 where
  pub window_size : ℕ
  pub baseline_publish_every : ℕ

abbrev pub default_memory : MemorySettings
default_memory = record { window_size = 3600; baseline_publish_every = 20 }

pub record PredictionSettings : Type 0 where
  pub horizon_s : ℕ
  pub trend_window : ℕ
  pub min_samples_for_trend : ℕ

abbrev pub default_prediction : PredictionSettings
default_prediction = record { horizon_s = 60_000; trend_window = 12; min_samples_for_trend = 4 }

pub record IncidentSettings : Type 0 where
  pub stalled_wait_s : ℕ
  pub congestion_ratio : ℕ
  pub congestion_min_baseline_samples : ℕ
  pub debounce_s : ℕ

abbrev pub default_incident : IncidentSettings
default_incident = record {
  stalled_wait_s = 90000;
  congestion_ratio = 2500;
  congestion_min_baseline_samples = 10;
  debounce_s = 60000;
}

pub record OrchestratorSettings : Type 0 where
  pub stale_after_s : ℕ
  pub check_interval_s : ℕ

abbrev pub default_orchestrator : OrchestratorSettings
default_orchestrator = record { stale_after_s = 15000; check_interval_s = 5000 }
