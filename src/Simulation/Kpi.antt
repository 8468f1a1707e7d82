-- ===== src/Simulation/Kpi.antt =====
-- libs/sentinel/simulation/kpi.py: what a run is measured by. Averages and rates are in thousandths,
-- rounded down.
use sentinal_ai_control_room.Prelude.{ℕ, ◌*◌, ◌/◌, String, nat_beq, if◌then◌else◌}
use sentinal_ai_control_room.Prelude.Dict.{Dict}
use sentinal_ai_control_room.Config.{milli}
use sentinal_ai_control_room.Contracts.Enums.{Direction}

pub record LaneKpi : Type 0 where
  pub direction : Direction
  pub arrived : ℕ
  pub served : ℕ
  pub total_delay_veh_s : ℕ
  pub max_queue_veh : ℕ

pub record KpiSummary : Type 0 where
  pub controller : String
  pub sim_duration_s : ℕ
  pub total_arrived : ℕ
  pub total_served : ℕ
  pub total_delay_veh_s : ℕ
  pub max_queue_veh : ℕ
  pub lanes : Dict Direction LaneKpi

-- `LaneKpi.avg_delay_s` and `KpiSummary.avg_delay_s`.
unfoldable pub lane_avg_delay_s : LaneKpi → ℕ
lane_avg_delay_s k = if nat_beq k.served 0 then 0 else k.total_delay_veh_s / k.served

unfoldable pub avg_delay_s : KpiSummary → ℕ
avg_delay_s k = if nat_beq k.total_served 0 then 0 else k.total_delay_veh_s / k.total_served

unfoldable pub throughput_vph : KpiSummary → ℕ
throughput_vph k = milli (milli (k.total_served * 3600)) / k.sim_duration_s

unfoldable pub clearance_rate : KpiSummary → ℕ
clearance_rate k =
    if nat_beq k.total_arrived 0 then 1000 else milli k.total_served / k.total_arrived
