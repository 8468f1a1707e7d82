-- ===== src/Simulation/Scenario.antt =====
-- libs/sentinel/simulation/config.py: the scenario of a benchmark run.
use sentinal_ai_control_room.Prelude.{
  ℕ, ◌+◌, Bool, true, ◌&&◌, List, [], ◌∷◌, String, leb, ltb, if◌then◌else◌, ◌==◌,
}
use sentinal_ai_control_room.Prelude.Dict.{Dict}
use sentinal_ai_control_room.Prelude.Results.{Result, ok, raise, value_error}
use sentinal_ai_control_room.Contracts.Enums.{Direction, north, south, east, west, direction_eq}
use sentinal_ai_control_room.Decision.Rounding.{round_units}

pub record LaneDemand : Type 0 where
  pub direction : Direction
  pub arrival_rate_vps : ℕ

pub record EmergencyEvent : Type 0 where
  pub direction : Direction
  pub start_s : ℕ
  pub duration_s : ℕ

abbrev pub active_at : EmergencyEvent → ℕ → Bool
active_at e t = leb e.start_s t && ltb t (e.start_s + e.duration_s)

pub record SimConfig : Type 0 where
  pub intersection_id : String
  pub dt_s : ℕ
  pub horizon_s : ℕ
  pub seed : ℕ
  pub demand : Dict Direction LaneDemand
  pub saturation_flow_vps : ℕ
  pub vehicle_length_m : ℕ
  pub approach_length_m : ℕ
  pub emergencies : List EmergencyEvent

abbrev pub total_steps : SimConfig → ℕ
total_steps c = round_units c.dt_s c.horizon_s

-- The loop of `_check_demand_directions`.
unfoldable pub demand_consistent : Dict Direction LaneDemand → Bool
demand_consistent [] = true
demand_consistent ((d, lane) ∷ rest) = lane.direction == d && demand_consistent rest

-- Building a configuration: the bounds on the fields, then the validator.
unfoldable pub check_config : SimConfig → Result SimConfig
unfolding demand_consistent
check_config c =
    if ltb 0 c.dt_s
      && ltb 0 c.horizon_s
      && ltb 0 c.saturation_flow_vps
      && ltb 0 c.vehicle_length_m
      && ltb 0 c.approach_length_m
      && demand_consistent c.demand
    then ok c
    else raise value_error

abbrev pub demand_at : ℕ → Direction → Direction × LaneDemand
demand_at rate_vps d = (d, record { direction = d; arrival_rate_vps = rate_vps })

abbrev pub symmetric_demand : ℕ → Dict Direction LaneDemand
symmetric_demand rate_vps =
    demand_at rate_vps north
    ∷ demand_at rate_vps south
    ∷ demand_at rate_vps east
    ∷ demand_at rate_vps west
    ∷ []

abbrev pub asymmetric_demand : ℕ → ℕ → Dict Direction LaneDemand
asymmetric_demand ns_rate_vps ew_rate_vps =
    demand_at ns_rate_vps north
    ∷ demand_at ns_rate_vps south
    ∷ demand_at ew_rate_vps east
    ∷ demand_at ew_rate_vps west
    ∷ []
