-- ===== src/Orchestrator/Mode.antt =====
-- The operating mode of libs/sentinel/orchestrator/agent.py, and the changes that it publishes.
use sentinal_ai_control_room.Prelude.{
  ℕ, ◌≡◌, refl, true, not, ◌&&◌, Option, none, some, List, [], ◌∷◌, ◌++◌, ◌⊎◌, String, ltb,
  if◌then◌else◌, ◌==◌, inl, arith,
}
use text.Mathlib.TextPositions.{starts_with-append}
use sentinal_ai_control_room.Config.{DecisionSettings, OrchestratorSettings}
use sentinal_ai_control_room.Contracts.Enums.{SystemMode, ai, mode_eq, mode_beq_iff}
use sentinal_ai_control_room.Contracts.Values.{IntersectionState}
use sentinal_ai_control_room.Contracts.Events.{
  Payload, state_updated, system_mode_changed, agent_heartbeat, baseline_updated,
  prediction_updated, decision_made, signal_changed, incident_detected, explanation_generated,
  DomainEvent,
}
use sentinal_ai_control_room.Orchestrator.Agent.{
  OrchestratorAgent, init, below, recovered, by_confidence, mode_event, on_state, on_heartbeat,
  dispatch, receive, mark_stale_agents, Input, delivered, woken, handle, handle_all,
}

replay_event : Option SystemMode → Payload → Option SystemMode
replay_event (some m) (system_mode_changed previous new_mode _) =
    if (previous == m) && not (new_mode == m) then some new_mode else none
replay_event m _ = m

-- The mode in which a log of mode changes ends: `none` where a change does not start from the mode
-- before it, or changes nothing.
unfoldable pub replay : Option SystemMode → List DomainEvent → Option SystemMode
unfolding replay_event
replay m [] = m
replay m (e ∷ rest) = replay (replay_event m e.payload) rest

replay-append :
    (m : Option SystemMode) (es : List DomainEvent) (e : DomainEvent)
    → replay m (es ++ e ∷ []) ≡ replay_event (replay m es) e.payload
unfolding replay
replay-append m [] e = refl
replay-append m (x ∷ es) e = replay-append (replay_event m x.payload) es e

-- What holds between two inputs: the mode is one of two, the reason to be degraded is the confidence
-- of the perception just while the mode is degraded, and the published changes lead to the mode.
pub record IsCoherent (a : OrchestratorAgent) : Type 0 where
  pub known : (a.mode ≡ ai) ⊎ (a.mode ≡ SystemMode.degraded)
  pub reasoned : by_confidence a.degraded_reason ≡ (a.mode == SystemMode.degraded)
  pub told : replay (some ai) a.published ≡ some a.mode

pub init-IsCoherent : IsCoherent init
unfolding init replay
init-IsCoherent = record { known = inl refl; reasoned = refl; told = refl }

module _ (d : DecisionSettings) (fixed2 : ℕ → String) (id : String) where
  by_below : (c t : ℕ) → by_confidence (some (below fixed2 c t)) ≡ true
  by_below c t = starts_with-append "perception_confidence" _

  -- The mode after a snapshot, given that the agent is coherent.
  abbrev pub mode_for : IntersectionState → SystemMode
  mode_for state =
      if ltb state.perception_confidence d.min_perception_confidence
      then SystemMode.degraded
      else ai

  abbrev pub reason_for : IntersectionState → String
  reason_for state =
      if ltb state.perception_confidence d.min_perception_confidence
      then below fixed2 state.perception_confidence d.min_perception_confidence
      else recovered

  -- The mode follows the confidence of the latest snapshot, and a change is published once: after a
  -- snapshot the mode is degraded if the confidence is below the threshold, and AI if not, and what
  -- is published is the change from the mode before it, with its reason, if there is a change.
  pub on_state_mode :
      (a : OrchestratorAgent) (state : IntersectionState)
      → IsCoherent a
      → ((on_state d fixed2 id a state).mode ≡ mode_for state)
        × ((on_state d fixed2 id a state).published ≡ (
            if a.mode == mode_for state
            then a.published
            else a.published
              ++ mode_event d fixed2 id a.mode (mode_for state) (reason_for state) ∷ []))
  unfolding on_state
  on_state_mode a state i = ground (arith, i.known, i.reasoned)

  on_state_reason :
      (a : OrchestratorAgent) (state : IntersectionState)
      → IsCoherent a
      → by_confidence (on_state d fixed2 id a state).degraded_reason
        ≡ ((on_state d fixed2 id a state).mode == SystemMode.degraded)
  unfolding on_state
  on_state_reason a state i =
      let b = by_below state.perception_confidence d.min_perception_confidence in
      ground (arith, i.known, i.reasoned, b)

  replay-change :
      (ps : List DomainEvent) (m n : SystemMode) (reason : String)
      → replay (some ai) ps ≡ some m
      → replay (some ai) (if m == n then ps else ps ++ mode_event d fixed2 id m n reason ∷ [])
        ≡ some n
  unfolding replay_event
  replay-change ps m n reason h =
      let e = replay-append (some ai) ps (mode_event d fixed2 id m n reason) in
      ground (arith, h, e, mode_beq_iff m n)

  on_state-IsCoherent :
      (a : OrchestratorAgent) (state : IntersectionState)
      → IsCoherent a
      → IsCoherent (on_state d fixed2 id a state)
  on_state-IsCoherent a state i =
      let (m, p) = on_state_mode a state i in
      record {
        known = ground (arith, m);
        reasoned = on_state_reason a state i;
        told =
            rw (p, m) (replay-change a.published a.mode (mode_for state) (reason_for state) i.told);
      }

  dispatch-IsCoherent :
      (a : OrchestratorAgent) (payload : Payload)
      → IsCoherent a
      → IsCoherent (dispatch d fixed2 id a payload)
  unfolding dispatch on_heartbeat
  dispatch-IsCoherent a (state_updated state) i = on_state-IsCoherent a state i
  dispatch-IsCoherent a (agent_heartbeat h) i = record {
    known = i.known;
    reasoned = i.reasoned;
    told = i.told;
  }
  dispatch-IsCoherent a (baseline_updated _) i = i
  dispatch-IsCoherent a (prediction_updated _) i = i
  dispatch-IsCoherent a (decision_made _) i = i
  dispatch-IsCoherent a (signal_changed _ _) i = i
  dispatch-IsCoherent a (incident_detected _) i = i
  dispatch-IsCoherent a (explanation_generated _) i = i
  dispatch-IsCoherent a (system_mode_changed _ _ _) i = i

module _ (s : OrchestratorSettings) (d : DecisionSettings) (fixed2 : ℕ → String) (id : String) where
  handle-IsCoherent :
      (a : OrchestratorAgent) (input : Input)
      → IsCoherent a
      → IsCoherent (handle s d fixed2 id a input)
  unfolding handle receive mark_stale_agents
  handle-IsCoherent a (delivered event) i = dispatch-IsCoherent d fixed2 id a event.event.payload i
  handle-IsCoherent a (woken now) i = record {
    known = i.known;
    reasoned = i.reasoned;
    told = i.told;
  }

  handle_all-keeps :
      (a : OrchestratorAgent) (inputs : List Input)
      → IsCoherent a
      → IsCoherent (handle_all s d fixed2 id a inputs)
  unfolding handle_all
  handle_all-keeps a [] i = i
  handle_all-keeps a (input ∷ rest) i =
      handle_all-keeps (handle s d fixed2 id a input) rest (handle-IsCoherent a input i)

  -- Whatever events are delivered and whenever the watchdog runs, the agent that has started is
  -- coherent: its mode is AI or degraded, it has a reason that starts with perception_confidence
  -- just while it is degraded, and the changes that it has published, followed from AI, each start
  -- from the mode that the one before it set, change it, and end in its mode.
  pub handle_all-IsCoherent :
      (inputs : List Input) → IsCoherent (handle_all s d fixed2 id init inputs)
  handle_all-IsCoherent inputs = handle_all-keeps init inputs init-IsCoherent
