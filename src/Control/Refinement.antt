-- ===== src/Control/Refinement.antt =====
-- The abstract cycle that the machine of libs/sentinel/control/phase.py goes round: serve an axis,
-- clear it by yellow, hold all-red, serve the other axis.
use mathlib.Core.Path.{subst}
use sentinal_ai_control_room.Prelude.{ℕ, ◌≡◌, refl, sym, ◌⊎◌, inl, inr, Bool, arith}
use sentinal_ai_control_room.Config.{DecisionSettings}
use sentinal_ai_control_room.Contracts.Enums.{Axis, all_red}
use sentinal_ai_control_room.Prelude.Results.{ok}
use sentinal_ai_control_room.Control.Phase.{
  PhaseStateMachine, Dt, green_phase_for, yellow_for_axis, other_axis, advance, step,
}
use sentinal_ai_control_room.Control.Transitions.{advance_of_step}

-- The axis is the one that is served, or was served last.
pub data Stage : Type 0 where
  serve clear hold : Axis → Stage

pub data Follows : Stage → Stage → Type 0 where
  stay : (t : Stage) → Follows t t
  yield : (a : Axis) → Follows (serve a) (clear a)
  stop : (a : Axis) → Follows (clear a) (hold a)
  hand_over : (a b : Axis) → b ≡ other_axis a → Follows (hold a) (serve b)

-- The machine is at the stage. The axis to serve next is fixed from the yellow on.
abbrev pub Refines : Stage → PhaseStateMachine → Type 0
Refines (serve a) m = m.phase ≡ green_phase_for a
Refines (clear a) m = (m.phase ≡ yellow_for_axis a) × (m.next_axis ≡ other_axis a)
Refines (hold a) m = (m.phase ≡ all_red) × (m.next_axis ≡ other_axis a)

module _ (s : DecisionSettings) where
  -- A stage that follows, at which the machine is.
  abbrev pub GoesOn : Stage → PhaseStateMachine → Type 0
  GoesOn t m = (u : Stage) × Follows t u × Refines u m

  module _ (dt : ℕ) (r : Bool) (m : PhaseStateMachine) (a : Axis) where
    advance-serve :
        Refines (serve a) m
        → Refines (serve a) (advance s dt r m) ⊎ Refines (clear a) (advance s dt r m)
    unfolding advance
    advance-serve i = ground arith

    advance-clear :
        Refines (clear a) m
        → Refines (clear a) (advance s dt r m) ⊎ Refines (hold a) (advance s dt r m)
    unfolding advance
    advance-clear i = ground arith

    advance-hold :
        Refines (hold a) m
        → Refines (hold a) (advance s dt r m) ⊎ Refines (serve (other_axis a)) (advance s dt r m)
    unfolding advance
    advance-hold i = ground arith

  goes_on :
      (t u : Stage) (m : PhaseStateMachine) → Follows t u → Refines t m ⊎ Refines u m → GoesOn t m
  goes_on t u m f (inl i) = (t, stay t, i)
  goes_on t u m f (inr i) = (u, f, i)

  advance-GoesOn :
      (dt : ℕ) (r : Bool) (m : PhaseStateMachine) (t : Stage)
      → Refines t m
      → GoesOn t (advance s dt r m)
  advance-GoesOn dt r m (serve a) i =
      goes_on (serve a) (clear a) (advance s dt r m) (yield a) (advance-serve dt r m a i)
  advance-GoesOn dt r m (clear a) i =
      goes_on (clear a) (hold a) (advance s dt r m) (stop a) (advance-clear dt r m a i)
  advance-GoesOn dt r m (hold a) i =
      goes_on (hold a) (serve (other_axis a)) (advance s dt r m) (hand_over a (other_axis a) refl)
        (advance-hold dt r m a i)

  -- The machine refines the cycle. From a machine at any stage, a tick that `step` accepts leads to
  -- a machine at the same stage or at the next one, where the axis that is served after the yellow
  -- and the all-red of one axis is the other one: greens alternate and are never without their
  -- clearance.
  pub step-Follows :
      (m : PhaseStateMachine) (dt : Dt) (r : Bool) (t : Stage) {m' : PhaseStateMachine}
      → Refines t m
      → step s m dt r ≡ ok m'
      → GoesOn t m'
  step-Follows m dt r t i h =
      let (n, _, _, q) = advance_of_step s m dt r h in
      subst (GoesOn t) (sym q) (advance-GoesOn n r m t i)
