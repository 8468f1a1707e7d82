-- ===== src/Control/Phase.antt =====
-- `PhaseStateMachine` and `SafetyEnvelope` of libs/sentinel/control/phase.py, lines 23 to 177.
-- Times are in thousandths of a second. A tick's `dt` is an integer, since the source tests its sign.
use sentinal_ai_control_room.Prelude.{
  ℕ, ◌+◌, Bool, true, false, ◌&&◌, ◌||◌, Option, leb, if◌then◌else◌,
}
use sentinal_ai_control_room.Prelude.Results.{Result, ok, raise, value_error}
use sentinal_ai_control_room.Config.{DecisionSettings}
use sentinal_ai_control_room.Contracts.Enums.{
  Axis, north_south, east_west, SignalPhase, ns_green, ns_yellow, ew_green, ew_yellow, all_red,
  phase_axis, is_green,
}

-- `_GREEN_FOR_AXIS`, and `green_phase_for`.
abbrev pub green_phase_for : Axis → SignalPhase
green_phase_for north_south = ns_green
green_phase_for east_west = ew_green

-- `_YELLOW_FOR_AXIS`.
abbrev pub yellow_for_axis : Axis → SignalPhase
yellow_for_axis north_south = ns_yellow
yellow_for_axis east_west = ew_yellow

abbrev pub other_axis : Axis → Axis
other_axis north_south = east_west
other_axis east_west = north_south

pub record PhaseStateMachine : Type 0 where
  pub phase : SignalPhase
  pub elapsed : ℕ
  pub next_axis : Axis

-- `__init__`.
unfoldable pub init : Axis → PhaseStateMachine
init initial_axis = record {
  phase = green_phase_for initial_axis;
  elapsed = 0;
  next_axis = other_axis initial_axis;
}

abbrev pub active_axis : PhaseStateMachine → Option Axis
active_axis m = phase_axis m.phase

-- A signed duration: `neg n` is -(n + 1).
pub data Dt : Type 0 where
  pos : ℕ → Dt
  neg : ℕ → Dt

module _ (s : DecisionSettings) where
  unfoldable pub can_switch : PhaseStateMachine → Bool
  can_switch m = is_green m.phase && leb s.min_green_s m.elapsed

  unfoldable pub must_switch : PhaseStateMachine → Bool
  must_switch m = is_green m.phase && leb s.max_green_s m.elapsed

-- `_enter`.
unfoldable pub enter : SignalPhase → PhaseStateMachine → PhaseStateMachine
enter new_phase m = record m { phase = new_phase; elapsed = 0 }

module _ (s : DecisionSettings) where
  -- The branch of a green phase that serves `axis`.
  on_green : Axis → Bool → PhaseStateMachine → PhaseStateMachine
  unfolding enter
  on_green axis request_switch m =
      if leb s.max_green_s m.elapsed || (request_switch && leb s.min_green_s m.elapsed)
      then enter (yellow_for_axis axis) (record m { next_axis = other_axis axis })
      else m

  on_yellow : PhaseStateMachine → PhaseStateMachine
  unfolding enter
  on_yellow m = if leb s.yellow_s m.elapsed then enter all_red m else m

  on_all_red : PhaseStateMachine → PhaseStateMachine
  unfolding enter
  on_all_red m = if leb s.all_red_s m.elapsed then enter (green_phase_for m.next_axis) m else m

  -- The `if`/`elif` over the phase; `m.elapsed` has the tick in it.
  unfoldable pub dispatch : SignalPhase → Bool → PhaseStateMachine → PhaseStateMachine
  unfolding on_green on_yellow on_all_red
  dispatch ns_green request_switch m = on_green north_south request_switch m
  dispatch ew_green request_switch m = on_green east_west request_switch m
  dispatch ns_yellow request_switch m = on_yellow m
  dispatch ew_yellow request_switch m = on_yellow m
  dispatch all_red request_switch m = on_all_red m

  -- `step` once `dt` is known to be positive.
  unfoldable pub advance : ℕ → Bool → PhaseStateMachine → PhaseStateMachine
  unfolding dispatch
  advance dt request_switch m =
      dispatch m.phase request_switch (record m { elapsed = m.elapsed + dt })

  unfoldable pub step : PhaseStateMachine → Dt → Bool → Result PhaseStateMachine
  unfolding advance
  step m (pos dt) request_switch =
      if leb dt 0 then raise value_error else ok (advance dt request_switch m)
  step m (neg n) request_switch = raise value_error

-- `SafetyEnvelope._LEGAL` and `is_legal_transition`.
unfoldable pub is_legal_transition : SignalPhase → SignalPhase → Bool
is_legal_transition ns_green ns_green = true
is_legal_transition ns_green ns_yellow = true
is_legal_transition ns_yellow ns_yellow = true
is_legal_transition ns_yellow all_red = true
is_legal_transition ew_green ew_green = true
is_legal_transition ew_green ew_yellow = true
is_legal_transition ew_yellow ew_yellow = true
is_legal_transition ew_yellow all_red = true
is_legal_transition all_red all_red = true
is_legal_transition all_red ns_green = true
is_legal_transition all_red ew_green = true
is_legal_transition _ _ = false

-- `validate_transition`: the verdict, and the count of violations with this one in it.
unfoldable pub validate_transition : SignalPhase → SignalPhase → ℕ → Bool × ℕ
unfolding is_legal_transition
validate_transition previous nxt violations =
    if is_legal_transition previous nxt then (true, violations) else (false, violations + 1)
