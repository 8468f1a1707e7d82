-- ===== src/Simulation/Harness.antt =====
-- libs/sentinel/simulation/harness.py: a controller run on the twin, and several on the same scenario.
-- The factory of environments makes the analytical one.
use sentinal_ai_control_room.Prelude.{
  ℕ, zero, suc, Bool, false, ◌||◌, not, List, [], ◌∷◌, String, string_eq, if◌then◌else◌, ◌==◌,
}
use sentinal_ai_control_room.Prelude.Dict
use sentinal_ai_control_room.Prelude.Dict.{Dict}
use sentinal_ai_control_room.Prelude.Results.{Result, ok, raise, value_error, ◌>>=◌}
use sentinal_ai_control_room.Config.{DecisionSettings}
use sentinal_ai_control_room.Contracts.Values.{IntersectionState, SignalCommand}
use sentinal_ai_control_room.Simulation.Controllers.{
  FixedTimerController, AdaptiveController, reset_fixed, reset_adaptive, decide_fixed,
  decide_adaptive,
}
use sentinal_ai_control_room.Simulation.Scenario.{SimConfig, total_steps}
use sentinal_ai_control_room.Simulation.Kpi.{KpiSummary}
use sentinal_ai_control_room.Simulation.Twin
use sentinal_ai_control_room.Simulation.Twin.{Environment, step, metrics}

-- The interface `Controller` of libs/sentinel/simulation/controllers.py, for a state `C`.
pub record Controller (C : Type 0) : Type 0 where
  pub name : String
  pub reset : C → C
  pub decide : C → IntersectionState → ℕ → Result (C × SignalCommand)

abbrev pub fixed_controller : DecisionSettings → Controller FixedTimerController
fixed_controller s = record { name = "fixed_timer"; reset = reset_fixed; decide = decide_fixed s }

abbrev pub adaptive_controller : DecisionSettings → Controller AdaptiveController
adaptive_controller s = record {
  name = "adaptive";
  reset = reset_adaptive;
  decide = decide_adaptive s;
}

-- A controller with its state.
pub record AnyController : Type 1 where
  pub C : Type 0
  pub interface : Controller C
  pub state : C

-- `ComparisonResult`.
pub record ComparisonResult : Type 0 where
  pub baseline : String
  pub summaries : Dict String KpiSummary

module _ {R : Type 0} (poisson : R → ℕ → ℕ × R) (seed : ℕ → R) (config : SimConfig) where
  -- The loop of `run_controller`.
  unfoldable pub run_ticks :
      {C : Type 0}
      → Controller C
      → ℕ
      → C
      → IntersectionState
      → Environment R
      → Result (Environment R)
  run_ticks i zero c state e = ok e
  run_ticks i (suc n) c state e = do
    (c', command) ← i.decide c state config.dt_s
    (e', state') ← step poisson seed config e command
    run_ticks i n c' state' e'

  unfoldable pub run_controller : {C : Type 0} → Controller C → C → Result KpiSummary
  unfolding run_ticks
  run_controller i c = do
    (e, state) ← Twin.reset poisson seed config
    e' ← run_ticks i (total_steps config) (i.reset c) state e
    ok (record (metrics config e') { controller = i.name })

  -- `any(c.name == baseline for c in controllers)`
  abbrev pub any_named : String → List AnyController → Bool
  any_named baseline [] = false
  any_named baseline (c ∷ rest) = (c.interface.name == baseline) || any_named baseline rest

  -- The comprehension of `run_comparison`, in the order of the controllers.
  unfoldable pub summarise :
      List AnyController → Dict String KpiSummary → Result (Dict String KpiSummary)
  unfolding run_controller
  summarise [] done = ok done
  summarise (c ∷ rest) done = do
    summary ← run_controller c.interface c.state
    summarise rest (Dict.set done c.interface.name summary)

  unfoldable pub run_comparison : List AnyController → String → Result ComparisonResult
  unfolding summarise
  run_comparison controllers baseline =
      if not (any_named baseline controllers) then raise value_error else do
        summaries ← summarise controllers []
        ok (record { baseline = baseline; summaries = summaries })
