-- ===== src/Services/Reasons.antt =====
-- What `ExplanationAgent` says of the decisions of `DecisionAgent`, both of
-- libs/sentinel/services/agents.py.
use sentinal_ai_control_room.Prelude.{ℕ, true, ◌≡◌, refl, ap, ◌∙◌, String, string_eq}
use sentinal_ai_control_room.Prelude.Results.{ok, ◌>>=◌, >>=-eq-ok}
use sentinal_ai_control_room.Config.{DecisionSettings}
use sentinal_ai_control_room.Contracts.Values.{IntersectionState, SignalCommand}
use sentinal_ai_control_room.Contracts.Events.{Delivered}
use sentinal_ai_control_room.Control.Phase.{PhaseStateMachine, pos, step}
use sentinal_ai_control_room.Simulation.Controllers.{
  FixedTimerController, decide_fixed, fixed_command, fixed_request,
}
use sentinal_ai_control_room.Services.Agents.{
  DecisionService, use_fallback, decide_state, mark_degraded,
}
use sentinal_ai_control_room.Services.Explanations.{explain_command, explain}

-- The command of the fixed timer.
decided_fixed :
    (s : DecisionSettings) (c c' : FixedTimerController) (state : IntersectionState) (dt : ℕ)
    (command : SignalCommand)
    → decide_fixed s c state dt ≡ ok (c', command)
    → (fsm : PhaseStateMachine) × (command ≡ fixed_command c state fsm)
unfolding decide_fixed
decided_fixed s c c' state dt command decided =
    let (fsm, e, last) =
      >>=-eq-ok (step s c.fsm (pos dt) (fixed_request c))
        (λ fsm. ok (record c { fsm = fsm }, fixed_command c state fsm)) decided in
    (fsm, (cc))

-- The command of the fallback.
decided_by_fallback :
    (s : DecisionSettings) (c c' : DecisionService) (state : IntersectionState)
    (command : SignalCommand)
    → use_fallback s state ≡ true
    → decide_state s c state ≡ ok (c', command)
    → (fsm : PhaseStateMachine) × (command
        ≡ mark_degraded (fixed_command c.fallback_controller state fsm))
unfolding decide_state
decided_by_fallback s c c' state command fallback decided =
    let chain : (decide_fixed s c.fallback_controller state 1000
          >>= (λ (out : FixedTimerController × SignalCommand).
              ok (record c { fallback_controller = out.0 }, mark_degraded out.1)))
        ≡ ok (c', command) =
      rw fallback at decided in
    let (out, e, last) =
      >>=-eq-ok (decide_fixed s c.fallback_controller state 1000)
        (λ (out : FixedTimerController × SignalCommand).
          ok (record c { fallback_controller = out.0 }, mark_degraded out.1))
        chain in
    let (fsm, own) = decided_fixed s c.fallback_controller out.0 state 1000 out.1 e in
    let marked : command ≡ mark_degraded out.1 = cc in (fsm, marked ∙ ap mark_degraded own)

-- Whenever the fallback controller decides, the explanation says so: of no decision of the fixed timer
-- does the service give another reason than the degraded control.
pub explain-decide_state :
    (fixed : ℕ → String) (s : DecisionSettings) (c c' : DecisionService) (state : IntersectionState)
    (event : Delivered) (command : SignalCommand)
    → use_fallback s state ≡ true
    → decide_state s c state ≡ ok (c', command)
    → (explain fixed event command).text
      ≡ "Using fixed-timer fallback because the intersection is in degraded control."
unfolding explain explain_command
explain-decide_state fixed s c c' state event command fallback decided =
    let (fsm, same) = decided_by_fallback s c c' state command fallback decided in rw same refl
