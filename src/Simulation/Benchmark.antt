-- ===== src/Simulation/Benchmark.antt =====
-- Why libs/sentinel/simulation/harness.py compares like with like.
use sentinal_ai_control_room.Prelude.{
  ℕ, zero, suc, ◌≤◌, ◌<◌, ◌≡◌, refl, sym, ap, ◌∙◌, List, [], ◌∷◌, map, sum, arith,
}
use sentinal_ai_control_room.Prelude.Dict
use sentinal_ai_control_room.Prelude.Dict.{Dict, keys, AllEntries}
use sentinal_ai_control_room.Prelude.Results.{ok}
use sentinal_ai_control_room.Config.{DecisionSettings}
use sentinal_ai_control_room.Contracts.Enums.{Direction, direction_eq}
use sentinal_ai_control_room.Contracts.Values.{IntersectionState, SignalCommand}
use sentinal_ai_control_room.Simulation.Commands.{decide_fixed_ok, decide_adaptive_ok}
use sentinal_ai_control_room.Simulation.Scenario.{SimConfig, total_steps}
use sentinal_ai_control_room.Simulation.Kpi.{LaneKpi, KpiSummary}
use sentinal_ai_control_room.Simulation.Twin
use sentinal_ai_control_room.Simulation.Twin.{
  LaneSim, Environment, clear_emergencies, set_emergency, mark_emergencies, update_emergencies,
  fresh, observe, advance_lanes, green_axis, has_green, discharge, hold, moved, move, step,
  lane_kpis, metrics,
}
use sentinal_ai_control_room.Simulation.Lanes.{AllConserving, AllListed}
use sentinal_ai_control_room.Simulation.Traffic.{
  IsRunning, step-IsRunning, observe-ok, fresh-IsRunning,
}
use sentinal_ai_control_room.Simulation.Harness.{
  Controller, fixed_controller, adaptive_controller, run_ticks, run_controller,
}
use sentinal_ai_control_room.Simulation.Arrivals.{Demand, traffic, demand_after, traffic-step}

-- What arrived on each approach, by a run's figures and by the demand side.
abbrev pub arrivals : Dict Direction LaneKpi → List (Direction × ℕ)
arrivals [] = []
arrivals ((d, k) ∷ rest) = (d, k.arrived) ∷ arrivals rest

abbrev pub arrived_of : List Demand → List (Direction × ℕ)
arrived_of [] = []
arrived_of ((d, rate, arrived) ∷ rest) = (d, arrived) ∷ arrived_of rest

arrivals-lane_kpis :
    (lanes : Dict Direction LaneSim) → arrivals (lane_kpis lanes) ≡ arrived_of (traffic lanes)
unfolding lane_kpis
arrivals-lane_kpis [] = refl
arrivals-lane_kpis ((d, lane) ∷ rest) = ap (λ ks. (d, lane.arrived) ∷ ks) (arrivals-lane_kpis rest)

served-le-arrived :
    (c : SimConfig) (t : ℕ) (lanes : Dict Direction LaneSim)
    → AllConserving c t lanes
    → sum (map (λ (l : LaneSim). l.served) (Dict.values lanes))
      ≤ sum (map (λ (l : LaneSim). l.arrived) (Dict.values lanes))
served-le-arrived c t [] a = omega arith
served-le-arrived c t ((d, lane) ∷ rest) a =
    omega (arith, a.0.balanced, served-le-arrived c t rest a.1)

-- A controller that answers every snapshot, from every state.
abbrev pub IsTotal : {C : Type 0} → Controller C → ℕ → Type 0
IsTotal {C} i dt =
    (s : C) (state : IntersectionState)
    → (s' : C) × (command : SignalCommand) × (i.decide s state dt ≡ ok (s', command))

pub fixed_controller-IsTotal :
    (s : DecisionSettings) (dt : ℕ) → 0 < dt → IsTotal (fixed_controller s) dt
fixed_controller-IsTotal s dt h c state = (_, _, decide_fixed_ok s state dt h c)

pub adaptive_controller-IsTotal :
    (s : DecisionSettings) (dt : ℕ) → 0 < dt → IsTotal (adaptive_controller s) dt
adaptive_controller-IsTotal s dt h c state = (_, _, decide_adaptive_ok s state dt h c)

module _ {R : Type 0} (poisson : R → ℕ → ℕ × R) (seed : ℕ → R) (c : SimConfig) where
  run_ticks-ok :
      {C : Type 0} (i : Controller C) (n : ℕ) (s : C) (state : IntersectionState)
      (e : Environment R)
      → IsTotal i c.dt_s
      → AllListed (keys c.demand) c.emergencies
      → IsRunning poisson seed c e
      → (e' : Environment R) × (run_ticks poisson seed c i n s state e ≡ ok e')
        × IsRunning poisson seed c e'
        × (traffic e'.lanes ≡ demand_after poisson seed c n e.rng (traffic e.lanes))
  unfolding run_ticks demand_after
  run_ticks-ok i zero s state e total l j = (e, refl, j, refl)
  run_ticks-ok i (suc n) s state e total l j =
      let (s', command, d) = total s state in
      let (e', state', m, k, _) = step-IsRunning poisson seed c e command l j in
      let (t, r) = traffic-step poisson seed c e command m in
      let (e'', f, k', t') = run_ticks-ok i n s' state' e' total l k in
      (e'', rw (d, m) f, k', t' ∙ rw (t, r))

  -- The vehicles that the scenario sends in a full run, by approach.
  abbrev pub sent : List (Direction × ℕ)
  sent =
      let e = fresh poisson seed c in
      arrived_of (demand_after poisson seed c (total_steps c) e.rng (traffic e.lanes))

  run_controller-ok :
      {C : Type 0} (i : Controller C) (s : C)
      → IsTotal i c.dt_s
      → AllListed (keys c.demand) c.emergencies
      → (k : KpiSummary) × (run_controller poisson seed c i s ≡ ok k)
        × (arrivals k.lanes ≡ sent)
        × (k.total_served ≤ k.total_arrived)
  unfolding run_controller metrics Twin.reset
  run_controller-ok i s total l =
      let e = fresh poisson seed c in
      let j = fresh-IsRunning poisson seed c in
      let (state, o) = observe-ok poisson seed c e j in
      let (e', f, k, t) = run_ticks-ok i (total_steps c) (i.reset s) state e total l j in
      (
        record (metrics c e') { controller = i.name },
        rw (o, f),
        arrivals-lane_kpis e'.lanes ∙ ap arrived_of t,
        served-le-arrived c e'.time e'.lanes k.lanes_ok,
      )

  -- The benchmark is a fair test. Let two controllers answer every snapshot, and let every emergency
  -- be on an approach of the scenario. Then both full runs return, in both of them the same numbers
  -- of vehicles arrive on each approach, whatever the controllers do, and neither serves more
  -- vehicles than arrive.
  pub run_controller_fair :
      {C D : Type 0} (i : Controller C) (j : Controller D) (s : C) (t : D)
      → IsTotal i c.dt_s
      → IsTotal j c.dt_s
      → AllListed (keys c.demand) c.emergencies
      → (k : KpiSummary) × (m : KpiSummary) × (run_controller poisson seed c i s ≡ ok k)
        × (run_controller poisson seed c j t ≡ ok m)
        × (arrivals k.lanes ≡ arrivals m.lanes)
        × (k.total_served ≤ k.total_arrived)
        × (m.total_served ≤ m.total_arrived)
  run_controller_fair i j s t f g l =
      let (k, r, a, b) = run_controller-ok i s f l in
      let (m, r', a', b') = run_controller-ok j t g l in (k, m, r, r', a ∙ sym a', b, b')
