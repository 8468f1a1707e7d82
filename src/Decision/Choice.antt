-- ===== src/Decision/Choice.antt =====
-- How `UtilityPolicy.decide` of libs/sentinel/decision/policy.py chooses.
use sentinal_ai_control_room.Prelude.{
  ℕ, ◌+◌, ◌*◌, ◌<◌, ◌≡◌, ◌≢◌, ◌↔◌, refl, inl, inr, Bool, true, false, ◌||◌, ◌&&◌, none, some, [],
  ◌∷◌, ◌==◌, Option-cases, arith,
}
use sentinal_ai_control_room.Prelude.Dict.{Dict}
use sentinal_ai_control_room.Config.{DecisionSettings, milli}
use sentinal_ai_control_room.Contracts.Enums.{
  Axis, Direction, switch_phase, emergency_override, direction_axis, axis_eq,
}
use sentinal_ai_control_room.Contracts.Values.{LaneState, emergency_directions}
use sentinal_ai_control_room.Control.Phase.{green_phase_for}
use sentinal_ai_control_room.Decision.Utility.{utility, score-utility}
use sentinal_ai_control_room.Decision.Policy.{
  AxisMetrics, first_axis, DecisionContext, active_axis, metrics, score, other, emergency_axis,
  decide_green, decide,
}

-- Whether a lane of the axis has an emergency vehicle.
unfoldable pub carries : Dict Direction LaneState → Axis → Bool
carries [] axis = false
carries ((d, lane) ∷ lanes) axis =
    (lane.has_emergency_vehicle && (direction_axis d == axis)) || carries lanes axis

none-carries :
    (lanes : Dict Direction LaneState) (axis : Axis)
    → first_axis (emergency_directions lanes) ≡ none
    → carries lanes axis ≡ false
unfolding emergency_directions carries
none-carries [] axis h = refl
none-carries ((d, lane) ∷ lanes) axis h = ground (arith, none-carries lanes axis)

some-carries :
    (lanes : Dict Direction LaneState) (axis : Axis)
    → first_axis (emergency_directions lanes) ≡ some axis
    → carries lanes axis ≡ true
unfolding emergency_directions carries
some-carries [] axis h = cc
some-carries ((d, lane) ∷ lanes) axis h =
    ground (arith, some-carries lanes axis, axis_eq.test_iff (direction_axis d) axis)

axis_covered :
    (a e : Axis) (lanes : Dict Direction LaneState)
    → carries lanes e ≡ true
    → carries lanes a ≡ false
    → carries lanes (other a) ≡ false
    → ⊥
axis_covered a e lanes h k l = ground arith

other-other : (a : Axis) → other (other a) ≡ a
other-other a = ground arith

decide_green_iff :
    (s : DecisionSettings) (a : Axis) (scores : Axis → ℕ) (ms : Axis → AxisMetrics)
    → (((decide_green s a scores ms).action ≡ switch_phase)
        ↔ (scores a + milli s.switch_penalty < scores (other a)))
      × ((decide_green s a scores ms).action ≡ switch_phase
          → (decide_green s a scores ms).desired_axis ≡ other a)
      × ((decide_green s a scores ms).action ≢ switch_phase
          → (decide_green s a scores ms).desired_axis ≡ a)
unfolding decide_green
decide_green_iff s a scores ms = ground arith

module _ (s : DecisionSettings) (c : DecisionContext) where
  abbrev pub score_of : Axis → ℕ
  score_of axis = score s (metrics c axis)

  decide_of_green :
      (a : Axis)
      → emergency_axis c.state ≡ none
      → active_axis c ≡ some a
      → decide s c ≡ decide_green s a score_of (metrics c)
  decide_of_green a n g = unfold decide in rw (n, decide) (rw (g, decide))

  decide_score_iff :
      (a : Axis)
      → emergency_axis c.state ≡ none
      → active_axis c ≡ some a
      → (((decide s c).action ≡ switch_phase)
          ↔ (score_of a + milli s.switch_penalty < score_of (other a)))
        × ((decide s c).action ≡ switch_phase → (decide s c).desired_axis ≡ other a)
        × ((decide s c).action ≢ switch_phase → (decide s c).desired_axis ≡ a)
  decide_score_iff a n g = rw (decide_of_green a n g) (decide_green_iff s a score_of (metrics c))

  no_emergency :
      (a : Axis)
      → carries c.state.lanes a ≡ false
      → carries c.state.lanes (other a) ≡ false
      → emergency_axis c.state ≡ none
  unfolding emergency_axis
  no_emergency a k l = elim (Option-cases (emergency_axis c.state)) [
    | inl n ↦ n
    | inr (e, y) ↦ absurd (axis_covered a e c.state.lanes (some-carries c.state.lanes e y) k l)
  ]

  green_active : (a : Axis) → c.state.current_phase ≡ green_phase_for a → active_axis c ≡ some a
  unfolding active_axis
  green_active a h = ground arith

  -- When no approach has an emergency vehicle, at the green of axis `a`: the policy asks for a
  -- switch exactly when the utility of the other axis beats that of `a` by more than the switch
  -- penalty. Then it wants the other axis, and otherwise it keeps `a`. The utility is the weighted
  -- sum of the vehicles and waits of the axis's approaches, of a waiting pedestrian, of the forecast
  -- queues, and of the time since the axis was green.
  pub decide_switch_iff :
      (a : Axis)
      → carries c.state.lanes a ≡ false
      → carries c.state.lanes (other a) ≡ false
      → c.state.current_phase ≡ green_phase_for a
      → (((decide s c).action ≡ switch_phase)
          ↔ (utility s c a + milli s.switch_penalty < utility s c (other a)))
        × ((decide s c).action ≡ switch_phase → (decide s c).desired_axis ≡ other a)
        × ((decide s c).action ≢ switch_phase → (decide s c).desired_axis ≡ a)
  decide_switch_iff a k l h =
      rw (← score-utility s c a, ← score-utility s c (other a))
        (decide_score_iff a (no_emergency a k l) (green_active a h))

  override_of_some :
      (e : Axis)
      → emergency_axis c.state ≡ some e
      → ((decide s c).action ≡ emergency_override) × ((decide s c).desired_axis ≡ e)
  unfolding decide
  override_of_some e h = rw (h, decide) (refl, refl)

  no_override_of_none : emergency_axis c.state ≡ none → (decide s c).action ≢ emergency_override
  unfolding decide
  no_override_of_none h = rw (h, decide) (ground arith)

  -- While any lane has an emergency vehicle the policy overrides, for an axis that has one, whatever
  -- the phase and the scores are; it does not override otherwise.
  pub decide_emergency :
      (a : Axis)
      → (carries c.state.lanes a ≡ true
          → ((decide s c).action ≡ emergency_override)
            × (carries c.state.lanes (decide s c).desired_axis ≡ true))
        × (carries c.state.lanes a ≡ false
            → carries c.state.lanes (other a) ≡ false
            → (decide s c).action ≢ emergency_override)
  unfolding emergency_axis
  decide_emergency a = elim (Option-cases (emergency_axis c.state)) [
    | inl n ↦ (λ h. absurd (cc (none-carries c.state.lanes a n)), λ h k. no_override_of_none n)
    | inr (e, y) ↦
        let (o, d) = override_of_some e y in
        let on = some-carries c.state.lanes e y in
        (λ h. (o, rw d on), λ h k. absurd (axis_covered a e c.state.lanes on h k))
  ]

  -- Fairness. With no emergency, at the green of axis `a`, the policy asks for the other axis once
  -- that has waited for so long that the fairness term alone beats the score of `a` by more than
  -- the switch penalty.
  pub decide_fair :
      (a : Axis)
      → emergency_axis c.state ≡ none
      → active_axis c ≡ some a
      → score_of a + milli s.switch_penalty
        < s.weight_fairness * (metrics c (other a)).since_green_s
      → ((decide s c).action ≡ switch_phase) × ((decide s c).desired_axis ≡ other a)
  decide_fair a n g h =
      let (iff, switched, _) = decide_score_iff a n g in
      let beaten : score_of a + milli s.switch_penalty < score_of (other a) =
        unfold score in omega arith in
      (iff.1 beaten, switched (iff.1 beaten))
