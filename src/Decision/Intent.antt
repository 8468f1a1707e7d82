-- ===== src/Decision/Intent.antt =====
-- What `DecisionAgent` of libs/sentinel/decision/agent.py publishes, and what the signal controller
-- makes of it.
use sentinal_ai_control_room.Prelude.{
  ℕ, ◌+◌, ◌*◌, ◌<◌, ◌≡◌, refl, inl, inr, Bool, false, not, ◌&&◌, ◌||◌, [], ◌∷◌, ◌++◌, String, leb,
  ltb, if◌then◌else◌, ◌==◌, Bool-cases, arith,
}
use sentinal_ai_control_room.Prelude.Dict
use sentinal_ai_control_room.Prelude.Dict.{Dict}
use sentinal_ai_control_room.Prelude.Results.{ok}
use sentinal_ai_control_room.Config.{DecisionSettings, milli}
use sentinal_ai_control_room.Contracts.Enums.{
  Axis, north_south, east_west, ns_green, ew_green, axis_eq, phase_eq,
}
use sentinal_ai_control_room.Contracts.Values.{IntersectionState}
use sentinal_ai_control_room.Contracts.Events.{state_updated, DomainEvent, Delivered}
use sentinal_ai_control_room.Control.Phase.{pos, green_phase_for, yellow_for_axis}
use sentinal_ai_control_room.Decision.Policy.{
  DecisionContext, DecisionOutcome, get_or_zero, other, decide,
}
use sentinal_ai_control_room.Decision.Agent.{
  DecisionAgent, elapsed_since, advance_fairness, command_of, context_of, decision_event, on_state,
  receive,
}
use sentinal_ai_control_room.Decision.Choice.{carries, decide_switch_iff}
use sentinal_ai_control_room.Decision.Utility.{demand, utility}
use sentinal_ai_control_room.SignalControl.Agent.{SignalController, on_decision, tick}
use sentinal_ai_control_room.SignalControl.Safety.{tick-green}

-- The clocks of both axes, in the order of the dictionary.
abbrev pub clocks : ℕ → ℕ → Dict Axis ℕ
clocks x y = (north_south, x) ∷ (east_west, y) ∷ []

-- The fairness clocks. A snapshot adds the time since the previous one, and none if it is older, to
-- the clock of each axis, and sets the clock of the axis that is green to 0; yellow and all-red
-- reset neither.
pub since_green-advance_fairness :
    (a : DecisionAgent) (state : IntersectionState) (x y : ℕ)
    → a.since_green ≡ clocks x y
    → let dt = elapsed_since a.prev_ts state.timestamp in
      let p = state.current_phase in
      (advance_fairness a state).since_green
      ≡ clocks (if p == ns_green then 0 else x + dt) (if p == ew_green then 0 else y + dt)
unfolding advance_fairness Dict.set
since_green-advance_fairness a state x y h = rw (h, advance_fairness) (ground arith)

-- The time since the previous snapshot, and since each axis was green.
abbrev pub waited : DecisionAgent → IntersectionState → (Axis → ℕ) → Axis → ℕ
waited a state t axis = t axis + elapsed_since a.prev_ts state.timestamp

module _ (s : DecisionSettings) (id : String) (a : DecisionAgent) (state : IntersectionState) where
  abbrev context : DecisionContext
  context = context_of s id (advance_fairness a state) state

  -- The demand of the other axis with its wait beats that of the axis and the switch penalty.
  abbrev pub is_outdone : Axis → (Axis → ℕ) → Bool
  is_outdone axis t =
      ltb (demand s state a.forecast axis + milli s.switch_penalty)
        (demand s state a.forecast (other axis) + s.weight_fairness * waited a state t (other axis))

  module _ (axis : Axis) (t : Axis → ℕ) (h : a.since_green ≡ clocks (t north_south) (t east_west))
      (g : state.current_phase ≡ green_phase_for axis) where
    clocks_read :
        (get_or_zero (Dict.get context.since_green_s axis) ≡ 0)
        × (get_or_zero (Dict.get context.since_green_s (other axis))
            ≡ waited a state t (other axis))
    unfolding advance_fairness Dict.get Dict.set
    clocks_read =
        rw (since_green-advance_fairness a state (t north_south) (t east_west) h) (ground arith)

    context-utility :
        (utility s context axis ≡ demand s state a.forecast axis)
        × (utility s context (other axis)
            ≡ demand s state a.forecast (other axis)
              + s.weight_fairness * waited a state t (other axis))
    unfolding advance_fairness
    context-utility = rw (clocks_read.0, clocks_read.1) (omega arith, refl)

    desired-decide :
        carries state.lanes axis ≡ false
        → carries state.lanes (other axis) ≡ false
        → not (axis == (decide s context).desired_axis) ≡ is_outdone axis t
    desired-decide k l =
        let (iff, switched, held) = decide_switch_iff s context axis k l g in
        let (own, opposing) = context-utility in
        elim (Bool-cases (is_outdone axis t)) [
          | inl b ↦
              let beaten : utility s context axis + milli s.switch_penalty
                  < utility s context (other axis) =
                rw (own, opposing) (ground (arith, b)) in
              rw (b, switched (iff.1 beaten)) (ground arith)
          | inr b ↦
              let kept : (decide s context).desired_axis ≡ axis = held (λ e.
                (let beaten = iff.0 e in absurd (ground (arith, b, own, opposing, beaten)))) in
              rw (b, kept) (ground arith)
        ]

  on_decision-command_of :
      (s' : DecisionSettings) (id' : String) (event : Delivered) (o : DecisionOutcome)
      (c : SignalController)
      → on_decision s' id' c (decision_event s id event o).payload
        ≡ record c { desired_axis = o.desired_axis }
  unfolding on_decision command_of
  on_decision-command_of s' id' event o c = ground arith

  -- From snapshot to signal. At the green of an axis, with no emergency vehicle at any approach, a
  -- snapshot makes an agent that keeps a clock for each axis publish one event. A signal controller
  -- that receives it in the green of the same axis leaves that green for its yellow at the next tick
  -- of some length exactly if max_green is reached with the tick, or if min_green is reached and the
  -- demand of the other axis, with the time it has waited, outdoes the demand of the axis and the
  -- switch penalty; otherwise the green stays. The time that the served axis has waited counts for
  -- nothing, since its green has reset the clock.
  pub tick-receive :
      (axis : Axis) (t : Axis → ℕ) (event : Delivered) (s' : DecisionSettings) (id' : String)
      (c : SignalController) (dt : ℕ)
      → a.since_green ≡ clocks (t north_south) (t east_west)
      → event.event.payload ≡ state_updated state
      → state.current_phase ≡ green_phase_for axis
      → carries state.lanes axis ≡ false
      → carries state.lanes (other axis) ≡ false
      → c.fsm.phase ≡ green_phase_for axis
      → 0 < dt
      → (sent : DomainEvent) × ((receive s id a event).published ≡ a.published ++ sent ∷ [])
        × (c' : SignalController) × (tick s' id' (on_decision s' id' c sent.payload) (pos dt)
            ≡ ok c')
        × (c'.fsm.phase ≡ (
            if leb s'.max_green_s (c.fsm.elapsed + dt)
              || (is_outdone axis t && leb s'.min_green_s (c.fsm.elapsed + dt))
            then yellow_for_axis axis
            else green_phase_for axis))
  unfolding receive on_state
  tick-receive axis t event s' id' c dt h p g k l q w =
      let o = decide s context in
      let sent = decision_event s id event o in
      let (c', e, _, phase) =
        tick-green s' id' (record c { desired_axis = o.desired_axis }) axis dt w q in
      (
        sent,
        rw p refl,
        c',
        rw (on_decision-command_of s' id' event o c) e,
        rw (← desired-decide axis t h g k l) phase,
      )
