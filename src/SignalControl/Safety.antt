-- ===== src/SignalControl/Safety.antt =====
-- What the agent of libs/sentinel/signal_control/agent.py guarantees over any sequence of decisions
-- and ticks.
use sentinal_ai_control_room.Prelude.{
  ℕ, ◌+◌, ◌<◌, ◌≡◌, refl, sym, ◌∙◌, ap, inl, inr, Bool, not, ◌&&◌, none, some, List, [], ◌∷◌,
  String, ◌==◌, if◌then◌else◌, Bool-cases, Option-cases, beq_refl, All, leb, ◌||◌, arith,
}
use sentinal_ai_control_room.Prelude.Results.{Result, ok, ◌>>=◌}
use sentinal_ai_control_room.Config.{DecisionSettings}
use sentinal_ai_control_room.Contracts.Enums.{
  Axis, SignalPhase, phase_axis, axis_eq, phase_eq, phase_beq_iff,
}
use sentinal_ai_control_room.Contracts.Events.{Payload, decision_made}
use sentinal_ai_control_room.Control.Phase
use sentinal_ai_control_room.Control.Phase.{
  PhaseStateMachine, Dt, pos, neg, step, advance, is_legal_transition, validate_transition,
  green_phase_for, yellow_for_axis,
}
use sentinal_ai_control_room.Control.Transitions.{
  IsSane, advance-green, init-IsSane, advance-IsSane, advance-legal, step-advance,
}
use sentinal_ai_control_room.SignalControl.Follow.{
  follow, follow_one, follow-append, follow_one-change, last_phase, last_phase-append,
}
use sentinal_ai_control_room.SignalControl.Agent.{
  SignalController, build_signal, init, start, on_decision, request_switch, announce,
  previous_signal, show, tick,
}

-- What reaches the agent: an event on its subscription, or the passing of time.
pub data Input : Type 0 where
  event : Payload → Input
  elapse : Dt → Input

-- A tick takes some time.
abbrev pub IsPositive : Input → Type 0
IsPositive (event e) = Unit
IsPositive (elapse (pos n)) = 0 < n
IsPositive (elapse (neg n)) = ⊥

abbrev pub ArePositive : List Input → Type 0
ArePositive = All IsPositive

module _ (s : DecisionSettings) (id : String) where
  unfoldable pub handle : SignalController → Input → Result SignalController
  handle c (event payload) = ok (on_decision s id c payload)
  handle c (elapse dt) = tick s id c dt

  unfoldable pub handle_all : SignalController → List Input → Result SignalController
  handle_all c [] = ok c
  handle_all c (i ∷ is) = do c' ← handle c i; handle_all c' is

  pub record IsSynced (p : SignalPhase) (c : SignalController) : Type 0 where
    pub sane : IsSane s c.fsm
    pub quiet : c.violations ≡ 0
    pub current : c.signal ≡ build_signal s id c.fsm
    pub actuated : last_phase c.applied ≡ some c.fsm.phase
    pub followed : follow p c.published ≡ some c.fsm.phase

  init-IsSynced : (a : Axis) → IsSynced (green_phase_for a) (init s id a)
  unfolding init build_signal follow Phase.init
  init-IsSynced a = record {
    sane = init-IsSane s a;
    quiet = refl;
    current = refl;
    actuated = refl;
    followed = refl;
  }

  start-IsSynced :
      (p : SignalPhase) (c : SignalController) → IsSynced p c → IsSynced p (start s id c)
  unfolding start follow_one build_signal
  start-IsSynced p c i = record {
    sane = i.sane;
    quiet = i.quiet;
    current = i.current;
    actuated = i.actuated;
    followed =
        follow-append p c.fsm.phase c.published (announce s id none c.signal) i.followed
        ∙ rw (i.current, beq_refl c.fsm.phase);
  }

  on_decision-IsSynced :
      (p : SignalPhase) (c : SignalController) (e : Payload)
      → IsSynced p c
      → IsSynced p (on_decision s id c e)
  unfolding on_decision
  on_decision-IsSynced p c (decision_made command) i =
      elim (Option-cases (phase_axis command.target_phase)) [
        | inl off ↦ rw (off, on_decision) i
        | inr (a, on) ↦
            rw (on, on_decision)
              (record {
                sane = i.sane;
                quiet = i.quiet;
                current = i.current;
                actuated = i.actuated;
                followed = i.followed;
              })
      ]
  on_decision-IsSynced p c _ i = i

  show-IsSynced :
      (p : SignalPhase) (c : SignalController) (dt : ℕ) (r : Bool)
      → IsSynced p c
      → IsSynced p (show s id c (advance s dt r c.fsm))
  unfolding show build_signal validate_transition
  show-IsSynced p c dt r i =
      let fsm = advance s dt r c.fsm in
      let signal = build_signal s id fsm in
      let previous = previous_signal s id c.fsm.phase in
      let legal = advance-legal s dt r c.fsm in
      elim (Bool-cases (fsm.phase == c.fsm.phase)) [
        | inl same ↦
            let e : fsm.phase ≡ c.fsm.phase = (phase_beq_iff fsm.phase c.fsm.phase).0 same in
            rw (same, show)
              (record {
                sane = advance-IsSane s dt r c.fsm i.sane;
                quiet = i.quiet;
                current = refl;
                actuated = i.actuated ∙ ap some (sym e);
                followed = i.followed ∙ ap some (sym e);
              })
        | inr new ↦
            rw (new, show)
              (record {
                sane = advance-IsSane s dt r c.fsm i.sane;
                quiet = rw legal i.quiet;
                current = refl;
                actuated = last_phase-append c.applied signal;
                followed =
                    follow-append p c.fsm.phase c.published (announce s id (some previous) signal)
                      i.followed
                    ∙ follow_one-change previous signal new legal;
              })
      ]

  handle-IsSynced :
      (p : SignalPhase) (c : SignalController) (i : Input)
      → IsPositive i
      → IsSynced p c
      → (c' : SignalController) × (handle c i ≡ ok c') × IsSynced p c'
  unfolding handle tick
  handle-IsSynced p c (event e) w k = (on_decision s id c e, refl, on_decision-IsSynced p c e k)
  handle-IsSynced p c (elapse (pos n)) w k =
      let r = request_switch s id c in
      (show s id c (advance s n r c.fsm), rw (step-advance s c.fsm n r w), show-IsSynced p c n r k)
  handle-IsSynced p c (elapse (neg n)) w k = elim w [ ]

  handle_all-IsSynced :
      (p : SignalPhase) (is : List Input) (c : SignalController)
      → ArePositive is
      → IsSynced p c
      → (c' : SignalController) × (handle_all c is ≡ ok c') × IsSynced p c'
  unfolding handle_all
  handle_all-IsSynced p [] c w k = (c, refl, k)
  handle_all-IsSynced p (i ∷ is) c w k =
      let (c₁, e, k₁) = handle-IsSynced p c i w.0 k in
      let (c', e', k') = handle_all-IsSynced p is c₁ w.1 k₁ in (c', rw (e, e'), k')

  -- A started controller that is given any decisions and other events, and ticks of positive
  -- length, in any order, raises nothing and stays in step: the machine is sane, no safety
  -- violation is counted, the current signal describes the machine, the actuator was last given the
  -- phase of the machine, and the events that it published lead a subscriber, by legal changes
  -- only, from the initial green to that phase.
  pub start-IsSynced_always :
      (a : Axis) (is : List Input)
      → ArePositive is
      → (c : SignalController) × (handle_all (start s id (init s id a)) is ≡ ok c)
        × IsSynced (green_phase_for a) c
  start-IsSynced_always a is w =
      handle_all-IsSynced (green_phase_for a) is (start s id (init s id a)) w
        (start-IsSynced (green_phase_for a) (init s id a) (init-IsSynced a))

  show_keeps :
      (c : SignalController) (fsm : PhaseStateMachine)
      → ((show s id c fsm).fsm ≡ fsm) × ((show s id c fsm).desired_axis ≡ c.desired_axis)
  unfolding show
  show_keeps c fsm = ground arith

  request-green :
      (c : SignalController) (a : Axis)
      → c.fsm.phase ≡ green_phase_for a
      → request_switch s id c ≡ not (a == c.desired_axis)
  request-green c a h = ground arith

  -- From a machine in the green of axis `a`, a tick moves on to that axis's yellow exactly when
  -- max_green is reached, or when the desired axis is the other one and min_green is reached;
  -- otherwise the green stays. In either case `tick` raises nothing and the desired axis is kept.
  pub tick-green :
      (c : SignalController) (a : Axis) (dt : ℕ)
      → 0 < dt
      → c.fsm.phase ≡ green_phase_for a
      → (c' : SignalController) × (tick s id c (pos dt) ≡ ok c')
        × (c'.desired_axis ≡ c.desired_axis)
        × (c'.fsm.phase ≡ (
            if leb s.max_green_s (c.fsm.elapsed + dt)
              || (not (a == c.desired_axis) && leb s.min_green_s (c.fsm.elapsed + dt))
            then yellow_for_axis a
            else green_phase_for a))
  unfolding tick
  tick-green c a dt w h =
      let r = request_switch s id c in
      let fsm = advance s dt r c.fsm in
      let (kept, desired) = show_keeps c fsm in
      (
        show s id c fsm,
        rw (step-advance s c.fsm dt r w),
        desired,
        ap (λ (m : PhaseStateMachine). m.phase) kept
            ∙ rw (← request-green c a h) (advance-green s c.fsm a dt r h),
      )
