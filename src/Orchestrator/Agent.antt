-- ===== src/Orchestrator/Agent.antt =====
-- `OrchestratorAgent` of libs/sentinel/orchestrator/agent.py. `fixed2` is what `f"{x:.2f}"` prints of a
-- number in thousandths. `now` is what the watchdog's clock says when it runs.
use sentinal_ai_control_room.Prelude.{
  ℕ, ◌-◌, Bool, false, not, ◌&&◌, Option, none, some, List, [], ◌∷◌, ◌++◌, String, string_eq, ltb,
  leb, if◌then◌else◌, ◌==◌,
}
use Prim.Native.String.{◌++◌ as join}
use text.Mathlib.Text.{starts_with}
use sentinal_ai_control_room.Prelude.Dict
use sentinal_ai_control_room.Prelude.Dict.{Dict}
use sentinal_ai_control_room.Config.{DecisionSettings, OrchestratorSettings}
use sentinal_ai_control_room.Contracts.Enums.{
  SystemMode, ai, unhealthy, stopped, mode_eq, status_eq,
}
use sentinal_ai_control_room.Contracts.Values.{IntersectionState, AgentHealth}
use sentinal_ai_control_room.Contracts.Events.{
  Payload, state_updated, system_mode_changed, agent_heartbeat, DomainEvent, Delivered,
}

pub record OrchestratorAgent : Type 0 where
  pub mode : SystemMode
  pub degraded_reason : Option String
  pub health : Dict String AgentHealth
  pub published : List DomainEvent

unfoldable pub init : OrchestratorAgent
init = record { mode = ai; degraded_reason = none; health = []; published = [] }

pub record OrchestratorSnapshot : Type 0 where
  pub mode : SystemMode
  pub degraded_reason : Option String
  pub agents : Dict String AgentHealth

abbrev pub snapshot : OrchestratorAgent → OrchestratorSnapshot
snapshot a = record { mode = a.mode; degraded_reason = a.degraded_reason; agents = a.health }

unfoldable pub on_heartbeat : OrchestratorAgent → AgentHealth → OrchestratorAgent
on_heartbeat a health = record a { health = Dict.set a.health health.agent_name health }

-- The two reasons of `_on_state`.
abbrev pub below : (ℕ → String) → ℕ → ℕ → String
below fixed2 confidence threshold =
    join "perception_confidence"
      (join " " (join (fixed2 confidence) (join " below threshold " (fixed2 threshold))))

abbrev pub recovered : String
recovered = "perception_confidence recovered"

-- `self._degraded_reason is not None and self._degraded_reason.startswith(…)`
abbrev pub by_confidence : Option String → Bool
by_confidence none = false
by_confidence (some reason) = starts_with reason "perception_confidence"

-- The test of the watchdog; a heartbeat from the future has age 0 here, which is not stale either.
abbrev pub is_stale : OrchestratorSettings → ℕ → AgentHealth → Bool
is_stale s now health =
    not (health.status == stopped)
    && ltb s.stale_after_s (now - health.last_heartbeat)
    && not (health.status == unhealthy)

-- The loop of `_mark_stale_agents`: each assignment is to the key whose entry is being looked at.
unfoldable pub mark_entries :
    OrchestratorSettings → ℕ → Dict String AgentHealth → Dict String AgentHealth
mark_entries s now [] = []
mark_entries s now ((name, health) ∷ rest) =
    (name, if is_stale s now health then record health { status = unhealthy } else health)
    ∷ mark_entries s now rest

unfoldable pub mark_stale_agents : OrchestratorSettings → ℕ → OrchestratorAgent → OrchestratorAgent
unfolding mark_entries
mark_stale_agents s now a = record a { health = mark_entries s now a.health }

module _ (s : DecisionSettings) (fixed2 : ℕ → String) (intersection_id : String) where
  abbrev pub mode_event : SystemMode → SystemMode → String → DomainEvent
  mode_event previous new_mode reason = record {
    source = "orchestrator";
    intersection_id = intersection_id;
    correlation_id = none;
    causation_id = none;
    payload = system_mode_changed previous new_mode reason;
  }

  unfoldable pub set_mode : OrchestratorAgent → SystemMode → String → OrchestratorAgent
  set_mode a new_mode reason = if new_mode == a.mode then a else record a {
    mode = new_mode;
    degraded_reason = if new_mode == SystemMode.degraded then some reason else none;
    published = a.published ++ mode_event a.mode new_mode reason ∷ [];
  }

  unfoldable pub on_state : OrchestratorAgent → IntersectionState → OrchestratorAgent
  unfolding set_mode
  on_state a state =
      let confidence = state.perception_confidence in
      let threshold = s.min_perception_confidence in
      if ltb confidence threshold && not (a.mode == SystemMode.degraded)
      then set_mode a SystemMode.degraded (below fixed2 confidence threshold)
      else if leb threshold confidence
          && a.mode == SystemMode.degraded
          && by_confidence a.degraded_reason
      then set_mode a ai recovered
      else a

  -- The two subscriptions of `_register`, with the handlers' type tests.
  unfoldable pub dispatch : OrchestratorAgent → Payload → OrchestratorAgent
  dispatch a (agent_heartbeat health) = on_heartbeat a health
  dispatch a (state_updated state) = on_state a state
  dispatch a _ = a

  unfoldable pub receive : OrchestratorAgent → Delivered → OrchestratorAgent
  unfolding dispatch
  receive a event = dispatch a event.event.payload

-- What happens to the agent: an event is delivered, or the watchdog's sleep ends.
pub data Input : Type 0 where
  delivered : Delivered → Input
  woken : ℕ → Input

module _ (s : OrchestratorSettings) (d : DecisionSettings) (fixed2 : ℕ → String)
    (intersection_id : String) where
  unfoldable pub handle : OrchestratorAgent → Input → OrchestratorAgent
  unfolding receive mark_stale_agents
  handle a (delivered event) = receive d fixed2 intersection_id a event
  handle a (woken now) = mark_stale_agents s now a

  unfoldable pub handle_all : OrchestratorAgent → List Input → OrchestratorAgent
  handle_all a [] = a
  handle_all a (input ∷ rest) = handle_all (handle a input) rest
