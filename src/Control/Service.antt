-- ===== src/Control/Service.antt =====
-- How late a green can come, in any run of libs/sentinel/control/phase.py.
use sentinal_ai_control_room.Prelude.{
  ℕ, ◌+◌, ◌-◌, ◌≤◌, ◌<◌, ◌*◌, ◌≡◌, ◌≢◌, inl, inr, ◌||◌, Bool, true, false, List, [], ◌∷◌,
  Bool-cases, ◌==◌, arith,
}
use sentinal_ai_control_room.Prelude.Results.{ok}
use sentinal_ai_control_room.Config.{DecisionSettings}
use sentinal_ai_control_room.Contracts.Enums.{
  Axis, north_south, east_west, SignalPhase, ns_green, ns_yellow, ew_green, ew_yellow, all_red,
  phase_eq, phase_beq_iff,
}
use sentinal_ai_control_room.Control.Phase.{PhaseStateMachine, green_phase_for, advance}
use sentinal_ai_control_room.Control.Transitions.{IsSane, advance-IsSane, step-advance}
use sentinal_ai_control_room.Control.Run.{Tick, AreTicks, duration, shown, shown_total}

-- The time within which a machine in phase `p`, `e` after the phase began and with `nx` to follow,
-- shows the green of axis `b`, if no tick is longer than `d`.
wait_all_red : DecisionSettings → ℕ → Axis → Axis → ℕ → ℕ
wait_all_red s d north_south north_south e = (s.all_red_s - e) + d
wait_all_red s d east_west east_west e = (s.all_red_s - e) + d
wait_all_red s d _ _ e =
    (s.all_red_s - e) + d + s.max_green_s + d + s.yellow_s + d + s.all_red_s + d

wait_own : DecisionSettings → ℕ → ℕ → ℕ
wait_own s d y = y + d + s.all_red_s + d + s.max_green_s + d + s.yellow_s + d + s.all_red_s + d

wait_in : DecisionSettings → ℕ → Axis → Axis → SignalPhase → ℕ → ℕ
unfolding wait_all_red wait_own
wait_in s d b nx all_red e = wait_all_red s d b nx e
wait_in s d north_south nx ew_green e = (s.max_green_s - e) + d + s.yellow_s + d + s.all_red_s + d
wait_in s d east_west nx ns_green e = (s.max_green_s - e) + d + s.yellow_s + d + s.all_red_s + d
wait_in s d north_south nx ew_yellow e = (s.yellow_s - e) + d + s.all_red_s + d
wait_in s d east_west nx ns_yellow e = (s.yellow_s - e) + d + s.all_red_s + d
wait_in s d north_south nx ns_yellow e = wait_own s d (s.yellow_s - e)
wait_in s d east_west nx ew_yellow e = wait_own s d (s.yellow_s - e)
wait_in s d north_south nx ns_green e = d + wait_own s d s.yellow_s
wait_in s d east_west nx ew_green e = d + wait_own s d s.yellow_s

wait : DecisionSettings → ℕ → Axis → PhaseStateMachine → ℕ
unfolding wait_in
wait s d b m = wait_in s d b m.next_axis m.phase m.elapsed

-- Whether a list of phases has the phase `p`.
abbrev pub shows : SignalPhase → List SignalPhase → Bool
shows p [] = false
shows p (q ∷ qs) = (q == p) || shows p qs

module _ (s : DecisionSettings) (d : ℕ) (b : Axis) where
  wait_pos : (m : PhaseStateMachine) → 0 < d → 0 < wait s d b m
  unfolding wait
  wait_pos m h = ground arith

  wait-le :
      (m : PhaseStateMachine)
      → wait s d b m ≤ s.max_green_s + 2 * s.yellow_s + 2 * s.all_red_s + 6 * d
  unfolding wait
  wait-le m = ground arith

  wait-advance :
      (dt : ℕ) (r : Bool) (m : PhaseStateMachine)
      → IsSane s m
      → dt ≤ d
      → (advance s dt r m).phase ≢ green_phase_for b
      → dt + wait s d b (advance s dt r m) ≤ wait s d b m
  unfolding wait advance
  wait-advance dt r m i h k = ground arith

  shows-run :
      (ticks : List Tick) (m : PhaseStateMachine)
      → IsSane s m
      → 0 < d
      → AreTicks d ticks
      → wait s d b m ≤ duration ticks
      → (phases : List SignalPhase) × (shown s m ticks ≡ ok phases)
        × (shows (green_phase_for b) phases ≡ true)
  unfolding shown
  shows-run [] m i pd h w = absurd (omega (arith, wait_pos m pd))
  shows-run ((dt, r) ∷ ticks) m i pd h w =
      let m' = advance s dt r m in
      let e = step-advance s m dt r h.0.0 in
      elim (Bool-cases (m'.phase == green_phase_for b)) [
        | inl here ↦
            let (phases, p) = shown_total s d ticks m' h.1 in
            (m'.phase ∷ phases, rw (e, p), rw here)
        | inr later ↦
            let off : m'.phase ≢ green_phase_for b =
              λ q. cc ((phase_beq_iff m'.phase (green_phase_for b)).1 q) in
            let (phases, p, q) =
              shows-run ticks m' (advance-IsSane s dt r m i) pd h.1
                (omega (arith, wait-advance dt r m i h.0.1 off)) in
            (m'.phase ∷ phases, rw (e, p), rw (later, q))
      ]

  -- Bounded service. From any sane machine, whatever the policy asks for at each tick, a run of
  -- ticks of at most `d` each that takes max_green, twice yellow, twice all_red and six ticks or
  -- more raises nothing and shows the green of either axis.
  pub shown-green :
      (ticks : List Tick) (m : PhaseStateMachine)
      → IsSane s m
      → 0 < d
      → AreTicks d ticks
      → s.max_green_s + 2 * s.yellow_s + 2 * s.all_red_s + 6 * d ≤ duration ticks
      → (phases : List SignalPhase) × (shown s m ticks ≡ ok phases)
        × (shows (green_phase_for b) phases ≡ true)
  shown-green ticks m i pd h w = shows-run ticks m i pd h (omega (arith, wait-le m))
