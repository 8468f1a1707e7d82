-- ===== src/Control/Run.antt =====
-- A run of `PhaseStateMachine.step` of libs/sentinel/control/phase.py over a sequence of ticks, as
-- its callers make it: each tick has its duration and the policy's request.
use sentinal_ai_control_room.Prelude.{ℕ, ◌+◌, ◌≤◌, ◌<◌, ◌≡◌, refl, Bool, List, [], ◌∷◌, All}
use sentinal_ai_control_room.Prelude.Results.{Result, ok, ◌>>=◌}
use sentinal_ai_control_room.Config.{DecisionSettings}
use sentinal_ai_control_room.Contracts.Enums.{SignalPhase, phase_eq}
use sentinal_ai_control_room.Control.Phase.{PhaseStateMachine, pos, advance, step}
use sentinal_ai_control_room.Control.Transitions.{step-advance}

abbrev pub Tick : Type 0
Tick = ℕ × Bool

-- The time that a run takes.
abbrev pub duration : List Tick → ℕ
duration [] = 0
duration ((dt, r) ∷ ticks) = dt + duration ticks

-- Every tick takes some time, and at most `bound`.
abbrev pub AreTicks : ℕ → List Tick → Type 0
AreTicks bound = All (λ t. (0 < t.0) × (t.0 ≤ bound))

module _ (s : DecisionSettings) where
  unfoldable pub run : PhaseStateMachine → List Tick → Result PhaseStateMachine
  run m [] = ok m
  run m ((dt, r) ∷ ticks) = do m' ← step s m (pos dt) r; run m' ticks

  -- The phases that a run shows after its ticks.
  unfoldable pub shown : PhaseStateMachine → List Tick → Result (List SignalPhase)
  shown m [] = ok []
  shown m ((dt, r) ∷ ticks) = do
    m' ← step s m (pos dt) r
    phases ← shown m' ticks
    ok (m'.phase ∷ phases)

  -- A run of positive ticks raises nothing.
  pub shown_total :
      (d : ℕ) (ticks : List Tick) (m : PhaseStateMachine)
      → AreTicks d ticks
      → (phases : List SignalPhase) × (shown m ticks ≡ ok phases)
  unfolding shown
  shown_total d [] m h = ([], refl)
  shown_total d ((dt, r) ∷ ticks) m h =
      let m' = advance s dt r m in
      let (phases, p) = shown_total d ticks m' h.1 in
      (m'.phase ∷ phases, rw (step-advance s m dt r h.0.0, p))
