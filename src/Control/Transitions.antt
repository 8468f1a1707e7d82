-- ===== src/Control/Transitions.antt =====
-- One tick of `PhaseStateMachine.step` of libs/sentinel/control/phase.py.
use sentinal_ai_control_room.Prelude.{
  ℕ, ◌+◌, ◌≤◌, ◌<◌, ◌≡◌, refl, ◌≢◌, ◌↔◌, ◌⊎◌, Bool, true, ◌&&◌, ◌||◌, leb, if◌then◌else◌, arith,
}
use sentinal_ai_control_room.Prelude.Results.{ok, raise, value_error}
use sentinal_ai_control_room.Config
use sentinal_ai_control_room.Config.{DecisionSettings}
use sentinal_ai_control_room.Contracts.Enums.{
  Axis, north_south, east_west, SignalPhase, ns_green, ns_yellow, ew_green, ew_yellow, all_red,
}
use sentinal_ai_control_room.Control.Phase.{
  PhaseStateMachine, Dt, pos, neg, init, advance, step, green_phase_for, yellow_for_axis,
  is_legal_transition,
}

-- How long the settings let a phase last.
abbrev pub budget : DecisionSettings → SignalPhase → ℕ
budget s ns_green = s.max_green_s
budget s ew_green = s.max_green_s
budget s ns_yellow = s.yellow_s
budget s ew_yellow = s.yellow_s
budget s all_red = s.all_red_s

-- How long a phase lasts at least.
abbrev pub minimum : DecisionSettings → SignalPhase → ℕ
minimum s ns_green = s.min_green_s
minimum s ew_green = s.min_green_s
minimum s ns_yellow = s.yellow_s
minimum s ew_yellow = s.yellow_s
minimum s all_red = s.all_red_s

-- What holds of a machine between two ticks.
pub record IsSane (s : DecisionSettings) (m : PhaseStateMachine) : Type 0 where
  pub within : (m.elapsed < budget s m.phase) ⊎ (m.elapsed ≡ 0)
  pub after_ns : m.phase ≡ ns_yellow → m.next_axis ≡ east_west
  pub after_ew : m.phase ≡ ew_yellow → m.next_axis ≡ north_south

pub init-IsSane : (s : DecisionSettings) (a : Axis) → IsSane s (init a)
unfolding init
init-IsSane s a = ground arith

module _ (s : DecisionSettings) (dt : ℕ) (r : Bool) (m : PhaseStateMachine) where
  pub advance-IsSane : IsSane s m → IsSane s (advance s dt r m)
  unfolding advance
  advance-IsSane h = ground arith

  pub advance-legal : is_legal_transition m.phase (advance s dt r m).phase ≡ true
  unfolding advance is_legal_transition
  advance-legal = ground arith

  pub advance_stays :
      (advance s dt r m).phase ≡ m.phase → (advance s dt r m).elapsed ≡ m.elapsed + dt
  unfolding advance
  advance_stays = ground arith

  pub advance_leaves :
      Config.IsValid s
      → (advance s dt r m).phase ≢ m.phase
      → (minimum s m.phase ≤ m.elapsed + dt) × ((advance s dt r m).elapsed ≡ 0)
  unfolding advance
  advance_leaves v h = ground arith

module _ (s : DecisionSettings) where
  -- What a tick does at the green of an axis.
  pub advance-green :
      (m : PhaseStateMachine) (a : Axis) (dt : ℕ) (r : Bool)
      → m.phase ≡ green_phase_for a
      → (advance s dt r m).phase ≡ (
          if leb s.max_green_s (m.elapsed + dt) || (r && leb s.min_green_s (m.elapsed + dt))
          then yellow_for_axis a
          else green_phase_for a)
  unfolding advance
  advance-green m a dt r h = ground arith

  pub step-advance :
      (m : PhaseStateMachine) (dt : ℕ) (r : Bool)
      → 0 < dt
      → step s m (pos dt) r ≡ ok (advance s dt r m)
  unfolding step
  step-advance m dt r h = ground arith

  pub advance_of_step :
      (m : PhaseStateMachine) (dt : Dt) (r : Bool) {m' : PhaseStateMachine}
      → step s m dt r ≡ ok m'
      → (n : ℕ) × (dt ≡ pos n) × (0 < n) × (m' ≡ advance s n r m)
  unfolding step
  advance_of_step m (pos n) r h = (n, refl, ground arith, ground arith)
  advance_of_step m (neg n) r h = cc

  -- `step` raises at exactly the ticks that are not positive, in every phase and for any request.
  pub step_raises_iff :
      (m : PhaseStateMachine) (dt : Dt) (r : Bool)
      → (step s m dt r ≡ raise value_error) ↔ ((n : ℕ) → dt ≡ pos n → n ≡ 0)
  unfolding step
  step_raises_iff m (pos n) r = (λ e k h. ground arith, λ h. rw (h n refl))
  step_raises_iff m (neg n) r = (λ e k h. cc, λ h. refl)

  -- Under valid settings, a tick that `step` accepts makes a transition that the safety envelope
  -- allows; it either stays in the phase and adds `dt` to its time, or leaves it after the phase's
  -- minimum (min_green, yellow or all_red) and starts the next phase's time at 0.
  pub step_transition :
      (m : PhaseStateMachine) (dt : ℕ) (r : Bool) {m' : PhaseStateMachine}
      → Config.IsValid s
      → step s m (pos dt) r ≡ ok m'
      → (is_legal_transition m.phase m'.phase ≡ true)
        × (m'.phase ≡ m.phase → m'.elapsed ≡ m.elapsed + dt)
        × (m'.phase ≢ m.phase → (minimum s m.phase ≤ m.elapsed + dt) × (m'.elapsed ≡ 0))
  step_transition m dt r v h =
      let (n, e, p, q) = advance_of_step m (pos dt) r h in
      let same : dt ≡ n = ground arith in
      rw (q, same) (advance-legal s n r m, advance_stays s n r m, λ d. advance_leaves s n r m v d)

  -- A tick that `step` accepts keeps a machine sane: a phase never stands at or past its limit when
  -- a tick ends (unless it has just begun), and each yellow hands over to the other axis.
  pub step-IsSane :
      (m : PhaseStateMachine) (dt : Dt) (r : Bool) {m' : PhaseStateMachine}
      → IsSane s m
      → step s m dt r ≡ ok m'
      → IsSane s m'
  step-IsSane m dt r i h =
      let (n, e, p, q) = advance_of_step m dt r h in rw q (advance-IsSane s n r m i)
