-- ===== src/Control/Clearance.antt =====
-- How soon a conflicting green can follow, in any run of libs/sentinel/control/phase.py.
use sentinal_ai_control_room.Prelude.{ℕ, ◌+◌, ◌-◌, ◌≤◌, ◌≡◌, Bool, List, [], ◌∷◌, arith}
use sentinal_ai_control_room.Prelude.Results.{ok, >>=-eq-ok}
use sentinal_ai_control_room.Config
use sentinal_ai_control_room.Config.{DecisionSettings}
use sentinal_ai_control_room.Contracts.Enums.{
  Axis, north_south, east_west, SignalPhase, ns_green, ns_yellow, ew_green, ew_yellow, all_red,
}
use sentinal_ai_control_room.Control.Phase.{
  PhaseStateMachine, pos, green_phase_for, other_axis, advance, step,
}
use sentinal_ai_control_room.Control.Transitions.{advance_of_step}
use sentinal_ai_control_room.Control.Run.{Tick, duration, run}

-- The time that must still pass before the green of axis `b` can be shown.
owed_in : DecisionSettings → Axis → SignalPhase → PhaseStateMachine → ℕ
owed_in s north_south ns_green m = 0
owed_in s north_south ew_green m = (s.min_green_s - m.elapsed) + s.yellow_s + s.all_red_s
owed_in s north_south ew_yellow m = (s.yellow_s - m.elapsed) + s.all_red_s
owed_in s north_south ns_yellow m = 0
owed_in s north_south all_red m = s.all_red_s - m.elapsed
owed_in s east_west ew_green m = 0
owed_in s east_west ns_green m = (s.min_green_s - m.elapsed) + s.yellow_s + s.all_red_s
owed_in s east_west ns_yellow m = (s.yellow_s - m.elapsed) + s.all_red_s
owed_in s east_west ew_yellow m = 0
owed_in s east_west all_red m = s.all_red_s - m.elapsed

owed : DecisionSettings → Axis → PhaseStateMachine → ℕ
unfolding owed_in
owed s b m = owed_in s b m.phase m

module _ (s : DecisionSettings) (v : Config.IsValid s) where
  owed-advance :
      (b : Axis) (dt : ℕ) (r : Bool) (m : PhaseStateMachine)
      → owed s b m ≤ dt + owed s b (advance s dt r m)
  unfolding owed advance
  owed-advance b dt r m = ground arith

  owed-run :
      (b : Axis) (m : PhaseStateMachine) (ticks : List Tick) {m' : PhaseStateMachine}
      → run s m ticks ≡ ok m'
      → owed s b m ≤ duration ticks + owed s b m'
  unfolding run
  owed-run b m [] h = ground arith
  owed-run b m ((dt, r) ∷ ticks) h =
      let (m₁, e, rest) = >>=-eq-ok (step s m (pos dt) r) (λ x. run s x ticks) h in
      let (n, p, _, q) = advance_of_step s m (pos dt) r e in
      ground (arith, owed-advance b dt r m, owed-run b m₁ ticks rest)

  -- Under valid settings, whatever a policy asks for, a run from a green that has just begun to the
  -- green of the other axis takes at least min_green, the whole yellow and the whole all-red.
  pub conflict-clearance :
      (a : Axis) (m : PhaseStateMachine) (ticks : List Tick) {m' : PhaseStateMachine}
      → m.phase ≡ green_phase_for a
      → run s m ticks ≡ ok m'
      → m'.phase ≡ green_phase_for (other_axis a)
      → (s.min_green_s - m.elapsed) + s.yellow_s + s.all_red_s ≤ duration ticks
  unfolding owed
  conflict-clearance a m ticks p h q = ground (arith, owed-run (other_axis a) m ticks h)
