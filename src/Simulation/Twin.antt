-- ===== src/Simulation/Twin.antt =====
-- `AnalyticalTrafficEnvironment` of libs/sentinel/simulation/analytical.py. The generator `R`, its
-- seeding and the Poisson sample that it is drawn from, for a mean in millionths, are parameters. A
-- capacity is counted in millionths of a vehicle.
use sentinal_ai_control_room.Prelude.{
  ℕ, ◌+◌, ◌-◌, ◌*◌, ◌/◌, min, max, Bool, true, false, Option, none, some, List, [], ◌∷◌, map, sum,
  nat_beq, if◌then◌else◌, ◌==◌,
}
use sentinal_ai_control_room.Prelude.Dict
use sentinal_ai_control_room.Prelude.Dict.{Dict}
use sentinal_ai_control_room.Prelude.Results.{Result, ok, raise, value_error, key_error, ◌>>=◌}
use sentinal_ai_control_room.Config.{milli}
use sentinal_ai_control_room.Contracts.Enums.{
  Axis, Direction, SignalPhase, ns_green, ai, is_green, phase_axis, direction_axis, from_occupancy,
  direction_eq, axis_eq, phase_eq,
}
use sentinal_ai_control_room.Contracts.Values.{
  LaneState, IntersectionState, SignalCommand, check_counts, lanes_consistent,
}
use sentinal_ai_control_room.Simulation.Scenario.{LaneDemand, EmergencyEvent, SimConfig, active_at}
use sentinal_ai_control_room.Simulation.Kpi.{LaneKpi, KpiSummary}

-- `_SIM_EPOCH`, the first of January 2020.
abbrev pub sim_epoch : ℕ
sim_epoch = 1_577_836_800_000

-- `_LaneSim`.
pub record LaneSim : Type 0 where
  pub direction : Direction
  pub arrival_rate_vps : ℕ
  pub queue : ℕ
  pub last_discharge : ℕ
  pub emergency : Bool
  pub arrived : ℕ
  pub served : ℕ
  pub total_delay_veh_s : ℕ
  pub max_queue : ℕ
  pub capacity : ℕ

abbrev pub new_lane : Direction → ℕ → LaneSim
new_lane d rate = record {
  direction = d;
  arrival_rate_vps = rate;
  queue = 0;
  last_discharge = 0;
  emergency = false;
  arrived = 0;
  served = 0;
  total_delay_veh_s = 0;
  max_queue = 0;
  capacity = 0;
}

abbrev pub to_kpi : LaneSim → LaneKpi
to_kpi lane = record {
  direction = lane.direction;
  arrived = lane.arrived;
  served = lane.served;
  total_delay_veh_s = lane.total_delay_veh_s;
  max_queue_veh = lane.max_queue;
}

pub record Environment (R : Type 0) : Type 0 where
  pub rng : R
  pub time : ℕ
  pub phase : SignalPhase
  pub phase_elapsed : ℕ
  pub lanes : Dict Direction LaneSim

-- The comprehension over the demand in `reset`.
unfoldable pub new_lanes : Dict Direction LaneDemand → Dict Direction LaneSim
new_lanes [] = []
new_lanes ((d, lane) ∷ rest) = (d, new_lane d lane.arrival_rate_vps) ∷ new_lanes rest

-- The first loop of `_update_emergencies`.
unfoldable pub clear_emergencies : Dict Direction LaneSim → Dict Direction LaneSim
clear_emergencies [] = []
clear_emergencies ((d, lane) ∷ rest) =
    (d, record lane { emergency = false }) ∷ clear_emergencies rest

-- `self._lanes[direction].emergency = True`.
unfoldable pub set_emergency : Dict Direction LaneSim → Direction → Result (Dict Direction LaneSim)
set_emergency lanes d = elim (Dict.get lanes d) [
  | none ↦ raise key_error
  | some lane ↦ ok (Dict.set lanes d (record lane { emergency = true }))
]

-- The second loop.
unfoldable pub mark_emergencies :
    ℕ → List EmergencyEvent → Dict Direction LaneSim → Result (Dict Direction LaneSim)
unfolding set_emergency
mark_emergencies t [] lanes = ok lanes
mark_emergencies t (e ∷ rest) lanes = do
  marked ← (if active_at e t then set_emergency lanes e.direction else ok lanes)
  mark_emergencies t rest marked

unfoldable pub update_emergencies :
    SimConfig → ℕ → Dict Direction LaneSim → Result (Dict Direction LaneSim)
unfolding mark_emergencies clear_emergencies
update_emergencies c t lanes = mark_emergencies t c.emergencies (clear_emergencies lanes)

-- `green_axis` in `step`.
abbrev pub green_axis : SignalPhase → Option Axis
green_axis phase = if is_green phase then phase_axis phase else none

abbrev pub has_green : Option Axis → Direction → Bool
has_green none d = false
has_green (some axis) d = direction_axis d == axis

-- The queue, after the arrivals, at a green and at a red.
unfoldable pub discharge : SimConfig → LaneSim → LaneSim
discharge c lane =
    let capacity = lane.capacity + c.saturation_flow_vps * c.dt_s in
    let out = min lane.queue (capacity / 1_000_000) in
    record lane {
      queue = lane.queue - out;
      capacity = capacity - out * 1_000_000;
      served = lane.served + out;
      last_discharge = out;
    }

unfoldable pub hold : LaneSim → LaneSim
hold lane = record lane { capacity = 0; last_discharge = 0 }

abbrev pub arrive : ℕ → LaneSim → LaneSim
arrive n lane = record lane { queue = lane.queue + n; arrived = lane.arrived + n }

-- The accumulators at the end of `_advance_lane`.
abbrev pub account : SimConfig → LaneSim → LaneSim
account c lane = record lane {
  total_delay_veh_s = lane.total_delay_veh_s + lane.queue * c.dt_s;
  max_queue = max lane.max_queue lane.queue;
}

-- `_advance_lane`, given the arrivals.
unfoldable pub serve_lane : SimConfig → Option Axis → ℕ → LaneSim → LaneSim
unfolding discharge hold
serve_lane c green n lane =
    let full = arrive n lane in
    account c (if has_green green lane.direction then discharge c full else hold full)

-- `_lane_state`; the wait guards against a saturation flow of 0.
abbrev pub lane_state : SimConfig → LaneSim → LaneState
lane_state c lane =
    let moving = min lane.last_discharge lane.queue in
    let queue_len_m = lane.queue * c.vehicle_length_m in
    let occupancy = min 100_000 (queue_len_m * 100_000 / c.approach_length_m) in
    record {
      direction = lane.direction;
      vehicle_count = lane.queue;
      moving_count = moving;
      stopped_count = lane.queue - moving;
      queue_length_m = queue_len_m;
      avg_wait_s =
          if nat_beq c.saturation_flow_vps 0
          then 0
          else milli (milli lane.queue) / c.saturation_flow_vps;
      occupancy_pct = occupancy;
      density = from_occupancy occupancy;
      has_emergency_vehicle = lane.emergency;
      pedestrian_waiting = false;
    }

-- The comprehension of `_observe`; building each state checks it.
unfoldable pub lane_states : SimConfig → Dict Direction LaneSim → Result (Dict Direction LaneState)
lane_states c [] = ok []
lane_states c ((d, lane) ∷ rest) = do
  state ← check_counts (lane_state c lane)
  states ← lane_states c rest
  ok ((d, state) ∷ states)

module _ {R : Type 0} (poisson : R → ℕ → ℕ × R) (seed : ℕ → R) (c : SimConfig) where
  abbrev pub snapshot : Environment R → Dict Direction LaneState → IntersectionState
  snapshot e lanes = record {
    intersection_id = c.intersection_id;
    timestamp = sim_epoch + e.time;
    lanes = lanes;
    current_phase = e.phase;
    phase_elapsed_s = e.phase_elapsed;
    mode = ai;
    perception_confidence = 1000;
  }

  unfoldable pub observe : Environment R → Result IntersectionState
  unfolding lane_states
  observe e = do
    lanes ← lane_states c e.lanes
    if lanes_consistent lanes then ok (snapshot e lanes) else raise value_error

  -- `reset`, less the observation.
  unfoldable pub fresh : Environment R
  unfolding new_lanes
  fresh = record {
    rng = seed c.seed;
    time = 0;
    phase = ns_green;
    phase_elapsed = 0;
    lanes = new_lanes c.demand;
  }

  unfoldable pub reset : Result (Environment R × IntersectionState)
  unfolding fresh observe
  reset = do state ← observe fresh; ok (fresh, state)

  -- The loop over the lanes in `step`: each draws its arrivals from the one generator.
  unfoldable pub advance_lanes :
      Option Axis → R → Dict Direction LaneSim → Dict Direction LaneSim × R
  unfolding serve_lane
  advance_lanes green rng [] = ([], rng)
  advance_lanes green rng ((d, lane) ∷ rest) =
      let (n, rng') = poisson rng (lane.arrival_rate_vps * c.dt_s) in
      let (lanes, rng'') = advance_lanes green rng' rest in
      ((d, serve_lane c green n lane) ∷ lanes, rng'')

  -- The new phase and the time in it.
  abbrev pub show_phase : Environment R → SignalPhase → Environment R
  show_phase e phase =
      if phase == e.phase
      then record e { phase_elapsed = e.phase_elapsed + c.dt_s }
      else record e { phase = phase; phase_elapsed = 0 }

  -- The rest of `step`, once the emergencies are known.
  abbrev pub moved : Environment R → SignalPhase → Dict Direction LaneSim → Environment R
  moved e phase lanes =
      let (lanes', rng) = advance_lanes (green_axis phase) e.rng lanes in
      record (show_phase e phase) { lanes = lanes'; rng = rng; time = e.time + c.dt_s }

  -- `step`, less the observation.
  unfoldable pub move : Environment R → SignalCommand → Result (Environment R)
  unfolding update_emergencies
  move e command = do
    lanes ← update_emergencies c e.time e.lanes
    ok (moved e command.target_phase lanes)

  unfoldable pub step : Environment R → SignalCommand → Result (Environment R × IntersectionState)
  unfolding move observe
  step e command = do e' ← move e command; state ← observe e'; ok (e', state)

-- The comprehension and the maximum of `metrics`.
unfoldable pub lane_kpis : Dict Direction LaneSim → Dict Direction LaneKpi
lane_kpis [] = []
lane_kpis ((d, lane) ∷ rest) = (d, to_kpi lane) ∷ lane_kpis rest

unfoldable pub greatest : List ℕ → ℕ
greatest [] = 0
greatest (n ∷ ns) = max n (greatest ns)

unfoldable pub metrics : SimConfig → {R : Type 0} → Environment R → KpiSummary
unfolding lane_kpis greatest
metrics c e = record {
  controller = "unknown";
  sim_duration_s = max e.time c.dt_s;
  total_arrived = sum (map (λ (l : LaneSim). l.arrived) (Dict.values e.lanes));
  total_served = sum (map (λ (l : LaneSim). l.served) (Dict.values e.lanes));
  total_delay_veh_s = sum (map (λ (l : LaneSim). l.total_delay_veh_s) (Dict.values e.lanes));
  max_queue_veh = greatest (map (λ (l : LaneSim). l.max_queue) (Dict.values e.lanes));
  lanes = lane_kpis e.lanes;
}
