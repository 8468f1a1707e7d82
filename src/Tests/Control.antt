-- ===== src/Tests/Control.antt =====
-- Runs of the phase machine of libs/sentinel/control/phase.py with the default settings.
use sentinal_ai_control_room.Prelude.{◌+◌, ◌≤◌, ◌≡◌, ◌≢◌, refl, true, false, List, [], ◌∷◌, arith}
use sentinal_ai_control_room.Prelude.Results.{ok}
use sentinal_ai_control_room.Config.{default_decision, default_decision-IsValid}
use sentinal_ai_control_room.Contracts.Enums.{
  north_south, east_west, SignalPhase, ns_green, ns_yellow, ew_green,
}
use sentinal_ai_control_room.Control.Phase.{PhaseStateMachine, pos, init, step, is_legal_transition}
use sentinal_ai_control_room.Control.Run.{Tick, duration, run, shown}
use sentinal_ai_control_room.Control.Transitions.{IsSane, init-IsSane, minimum, step_transition}
use sentinal_ai_control_room.Control.Clearance.{conflict-clearance}
use sentinal_ai_control_room.Control.Service.{shows, shown-green}
use sentinal_ai_control_room.Control.Refinement.{serve, GoesOn, step-Follows}

-- The green of north-south at seven seconds, when a policy asks for a switch.
abbrev served : PhaseStateMachine
served = record { phase = ns_green; elapsed = 6000; next_axis = east_west }

abbrev cleared : PhaseStateMachine
cleared = record { phase = ns_yellow; elapsed = 0; next_axis = east_west }

served_yields : step default_decision served (pos 1000) true ≡ ok cleared
unfolding step
served_yields = refl

too_early : step default_decision served (pos 999) true ≡ ok (record served { elapsed = 6999 })
unfolding step
too_early = refl

served-IsSane : IsSane default_decision served
served-IsSane = ground arith

step_transition_example :
    (is_legal_transition ns_green ns_yellow ≡ true)
    × (ns_yellow ≡ ns_green → 0 ≡ served.elapsed + 1000)
    × (ns_yellow ≢ ns_green
        → (minimum default_decision served.phase ≤ served.elapsed + 1000) × (cleared.elapsed ≡ 0))
step_transition_example =
    step_transition default_decision served 1000 true default_decision-IsValid served_yields

step-Follows_example : GoesOn default_decision (serve north_south) cleared
step-Follows_example =
    step-Follows default_decision served (pos 1000) true (serve north_south) refl served_yields

-- Seconds of a policy that always asks for a switch: seven of green, three of yellow, two of all-red.
abbrev impatient : List Tick
impatient = (7000, true) ∷ (1000, true) ∷ (1000, true) ∷ (1000, true) ∷ (2000, true) ∷ []

abbrev opposite : PhaseStateMachine
opposite = record { phase = ew_green; elapsed = 0; next_axis = east_west }

impatient_runs : run default_decision (init north_south) impatient ≡ ok opposite
unfolding run step init
impatient_runs = refl

conflict-clearance_example : 12000 ≤ duration impatient
unfolding init
conflict-clearance_example =
    conflict-clearance default_decision default_decision-IsValid north_south (init north_south)
      impatient refl impatient_runs refl

-- A policy that never asks, with ticks of half a minute.
abbrev slow : List Tick
slow =
    (30000, false)
    ∷ (30000, false)
    ∷ (30000, false)
    ∷ (30000, false)
    ∷ (30000, false)
    ∷ (30000, false)
    ∷ (30000, false)
    ∷ (30000, false)
    ∷ (30000, false)
    ∷ []

shown-green_example :
    (phases : List SignalPhase) × (shown default_decision (init north_south) slow ≡ ok phases)
    × (shows ew_green phases ≡ true)
shown-green_example =
    shown-green default_decision 30000 east_west slow (init north_south)
      (init-IsSane default_decision north_south) (omega arith) (omega arith) (omega arith)
