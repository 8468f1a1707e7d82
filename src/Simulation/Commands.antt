-- ===== src/Simulation/Commands.antt =====
-- What the controllers of libs/sentinel/simulation/controllers.py make of the phase machine.
use sentinal_ai_control_room.Prelude.{
  ℕ, ◌+◌, ◌≤◌, ◌<◌, ◌≡◌, refl, ◌∙◌, Bool, true, ◌&&◌, ◌||◌, none, String, leb, if◌then◌else◌, arith,
}
use sentinal_ai_control_room.Prelude.Results.{ok}
use sentinal_ai_control_room.Config.{DecisionSettings}
use sentinal_ai_control_room.Contracts.Enums.{
  Axis, north_south, east_west, axis_eq, phase_eq, DecisionAction, switch_phase,
}
use sentinal_ai_control_room.Contracts.Values.{IntersectionState, SignalCommand}
use sentinal_ai_control_room.Control.Phase.{
  PhaseStateMachine, green_phase_for, yellow_for_axis, other_axis, active_axis, advance,
  is_legal_transition,
}
use sentinal_ai_control_room.Control.Transitions.{
  IsSane, advance-IsSane, advance-legal, step-advance, advance-green,
}
use sentinal_ai_control_room.Simulation.Controllers.{
  FixedTimerController, AdaptiveController, emergency_axis, track_fairness, evaluate, fixed_request,
  fixed_command, adaptive_command, decide_fixed, decide_adaptive,
}

-- A command that its controller's machine has made: it shows the machine's new phase, after a legal
-- transition from the old one, and the machine is still sane.
pub record IsSafe (s : DecisionSettings) (before after : PhaseStateMachine)
    (command : SignalCommand) : Type 0 where
  pub shows : command.target_phase ≡ after.phase
  pub legal : is_legal_transition before.phase command.target_phase ≡ true
  pub sane : IsSane s after

module _ (s : DecisionSettings) (state : IntersectionState) (dt : ℕ) (positive : 0 < dt) where
  pub after_fixed : FixedTimerController → PhaseStateMachine
  after_fixed c = advance s dt (fixed_request c) c.fsm

  pub decide_fixed_ok :
      (c : FixedTimerController)
      → decide_fixed s c state dt
        ≡ ok (record c { fsm = after_fixed c }, fixed_command c state (after_fixed c))
  unfolding decide_fixed after_fixed
  decide_fixed_ok c = rw (step-advance s c.fsm dt (fixed_request c) positive)

  pub since_after : AdaptiveController → Axis → ℕ
  since_after c = track_fairness (active_axis c.fsm) dt c.since_green

  abbrev pub verdict : AdaptiveController → Bool × DecisionAction × String
  verdict c = evaluate s (since_after c) state (active_axis c.fsm)

  pub after_adaptive : AdaptiveController → PhaseStateMachine
  after_adaptive c = advance s dt (verdict c).0 c.fsm

  pub decide_adaptive_ok :
      (c : AdaptiveController)
      → decide_adaptive s c state dt
        ≡ ok (
          record c { fsm = after_adaptive c; since_green = since_after c },
          adaptive_command s c state (after_adaptive c) (verdict c).1 (verdict c).2,
        )
  unfolding decide_adaptive after_adaptive since_after
  decide_adaptive_ok c =
      let r =
        (evaluate s (track_fairness (active_axis c.fsm) dt c.since_green) state
          (active_axis c.fsm)).0 in
      rw (step-advance s c.fsm dt r positive)

  fair_verdict :
      (c : AdaptiveController) (a : Axis)
      → c.fsm.phase ≡ green_phase_for a
      → emergency_axis state ≡ none
      → s.max_starvation_s ≤ c.since_green (other_axis a) + dt
      → verdict c ≡ (true, switch_phase, "fairness_anti_starvation")
  unfolding evaluate since_after track_fairness
  fair_verdict c north_south h e w = rw (e, evaluate) (ground arith)
  fair_verdict c east_west h e w = rw (e, evaluate) (ground arith)

  -- Whatever it observes, the fixed timer's command is safe.
  pub decide_fixed-IsSafe :
      (c : FixedTimerController)
      → IsSane s c.fsm
      → (c' : FixedTimerController) × (command : SignalCommand) × (decide_fixed s c state dt
          ≡ ok (c', command))
        × IsSafe s c.fsm c'.fsm command
  unfolding after_fixed
  decide_fixed-IsSafe c i = (
    record c { fsm = after_fixed c },
    fixed_command c state (after_fixed c),
    decide_fixed_ok c,
    record {
      shows = refl;
      legal = advance-legal s dt (fixed_request c) c.fsm;
      sane = advance-IsSane s dt (fixed_request c) c.fsm i;
    },
  )

  -- Whatever it observes, the adaptive controller's command is safe.
  pub decide_adaptive-IsSafe :
      (c : AdaptiveController)
      → IsSane s c.fsm
      → (c' : AdaptiveController) × (command : SignalCommand) × (decide_adaptive s c state dt
          ≡ ok (c', command))
        × IsSafe s c.fsm c'.fsm command
  unfolding after_adaptive
  decide_adaptive-IsSafe c i = (
    record c { fsm = after_adaptive c; since_green = since_after c },
    adaptive_command s c state (after_adaptive c) (verdict c).1 (verdict c).2,
    decide_adaptive_ok c,
    record {
      shows = refl;
      legal = advance-legal s dt (verdict c).0 c.fsm;
      sane = advance-IsSane s dt (verdict c).0 c.fsm i;
    },
  )

  requested :
      (c : FixedTimerController) (a : Axis)
      → c.fsm.phase ≡ green_phase_for a
      → fixed_request c ≡ leb c.green_s c.fsm.elapsed
  unfolding fixed_request
  requested c a h = ground arith

  -- The fixed timer at the green of axis `a`: it yields to yellow when max_green is reached, or when
  -- min_green is and the green had lasted `green_s` already before this tick. It looks at the time
  -- before the tick, so a green that reaches `green_s` by the tick goes on.
  pub decide_fixed_green :
      (c : FixedTimerController) (a : Axis)
      → c.fsm.phase ≡ green_phase_for a
      → (c' : FixedTimerController) × (command : SignalCommand) × (decide_fixed s c state dt
          ≡ ok (c', command))
        × (command.target_phase ≡ (
            if leb s.max_green_s (c.fsm.elapsed + dt)
              || (leb c.green_s c.fsm.elapsed && leb s.min_green_s (c.fsm.elapsed + dt))
            then yellow_for_axis a
            else green_phase_for a))
  unfolding after_fixed
  decide_fixed_green c a h =
      let asked : fixed_request c ≡ leb c.green_s c.fsm.elapsed = requested c a h in
      (
        record c { fsm = after_fixed c },
        fixed_command c state (after_fixed c),
        decide_fixed_ok c,
        rw (← asked) (advance-green s c.fsm a dt (fixed_request c) h),
      )

  -- The green of axis `a` with no emergency: once the other axis has waited for max_starvation,
  -- this tick included, and min_green is reached, the adaptive controller yields, whatever the
  -- queues are, and gives fairness as its reason.
  pub decide_adaptive_fair :
      (c : AdaptiveController) (a : Axis)
      → c.fsm.phase ≡ green_phase_for a
      → emergency_axis state ≡ none
      → s.max_starvation_s ≤ c.since_green (other_axis a) + dt
      → s.min_green_s ≤ c.fsm.elapsed + dt
      → (c' : AdaptiveController) × (command : SignalCommand) × (decide_adaptive s c state dt
          ≡ ok (c', command))
        × (command.target_phase ≡ yellow_for_axis a)
        × (command.reason_code ≡ "fairness_anti_starvation")
  unfolding after_adaptive
  decide_adaptive_fair c a h e w m =
      let v = fair_verdict c a h e w in
      (
        record c { fsm = after_adaptive c; since_green = since_after c },
        adaptive_command s c state (after_adaptive c) (verdict c).1 (verdict c).2,
        decide_adaptive_ok c,
        rw v (advance-green s c.fsm a dt true h ∙ ground arith),
        rw v,
      )
