-- ===== src/Services/Handover.antt =====
-- What the service agents of libs/sentinel/services/agents.py show when the controller changes.
use sentinal_ai_control_room.Prelude.{
  ◌+◌, ◌<◌, ◌≡◌, ◌∙◌, true, false, some, [], ◌∷◌, ◌++◌, String, arith,
}
use sentinal_ai_control_room.Prelude.Results.{ok}
use sentinal_ai_control_room.Config.{DecisionSettings}
use sentinal_ai_control_room.Contracts.Enums.{Axis}
use sentinal_ai_control_room.Contracts.Values.{IntersectionState, SignalCommand, SignalState}
use sentinal_ai_control_room.Control.Phase.{green_phase_for, other_axis, is_legal_transition}
use sentinal_ai_control_room.Control.Transitions.{IsSane}
use sentinal_ai_control_room.Simulation.Commands.{
  IsSafe, decide_fixed_green, decide_adaptive-IsSafe,
}
use sentinal_ai_control_room.Services.Agents.{
  DecisionService, SignalService, use_fallback, mark_degraded, signal_of, decide_state, actuate,
}

illegal :
    (a : Axis) → is_legal_transition (green_phase_for a) (green_phase_for (other_axis a)) ≡ false
unfolding is_legal_transition
illegal a = ground arith

module _ (s : DecisionSettings) (id : String) where
  -- While the adaptive controller decides, the service's commands are as safe as its machine's.
  pub decide_state-IsSafe :
      (c : DecisionService) (state : IntersectionState)
      → use_fallback s state ≡ false
      → IsSane s c.ai_controller.fsm
      → (c' : DecisionService) × (command : SignalCommand) × (decide_state s c state
          ≡ ok (c', command))
        × IsSafe s c.ai_controller.fsm c'.ai_controller.fsm command
  unfolding decide_state
  decide_state-IsSafe c state h i =
      let (a, command, e, safe) =
        decide_adaptive-IsSafe s state 1000 (omega arith) c.ai_controller i in
      (record c { ai_controller = a }, command, rw (h, e), safe)

  -- A change of controller can show conflicting greens back to back. Let the last signal be the
  -- green of axis `a`, and let the fallback's own machine be in the green of the other axis, before
  -- its `green_s` and more than a tick before max_green. If the next snapshot calls for the
  -- fallback, the service commands the green of the other axis at once, the signal service shows
  -- it, and the pair that it publishes is a transition that the safety envelope forbids.
  pub handover-conflict :
      (c : DecisionService) (g : SignalService) (last : SignalState) (state : IntersectionState)
      (a : Axis)
      → g.last_signal ≡ some last
      → last.phase ≡ green_phase_for a
      → c.fallback_controller.fsm.phase ≡ green_phase_for (other_axis a)
      → c.fallback_controller.fsm.elapsed < c.fallback_controller.green_s
      → c.fallback_controller.fsm.elapsed + 1000 < s.max_green_s
      → use_fallback s state ≡ true
      → (c' : DecisionService) × (command : SignalCommand) × (signal : SignalState) × (decide_state
            s c state
          ≡ ok (c', command))
        × ((actuate id g command).published ≡ g.published ++ (some last, signal) ∷ [])
        × (signal.phase ≡ green_phase_for (other_axis a))
        × (is_legal_transition last.phase signal.phase ≡ false)
  unfolding decide_state actuate
  handover-conflict c g last state a l p f e m h =
      let (controller, command, d, shown) =
        decide_fixed_green s state 1000 (omega arith) c.fallback_controller (other_axis a) f in
      let green : command.target_phase ≡ green_phase_for (other_axis a) = shown ∙ ground arith in
      (
        record c { fallback_controller = controller },
        mark_degraded command,
        signal_of id g (mark_degraded command),
        rw (h, d),
        rw l,
        green,
        rw (p, green) (illegal a),
      )
