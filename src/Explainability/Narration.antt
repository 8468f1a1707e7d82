-- ===== src/Explainability/Narration.antt =====
-- What `ExplainabilityAgent` of libs/sentinel/explainability/agent.py publishes for a decision.
use sentinal_ai_control_room.Prelude.{
  ℕ, Bool, true, false, ◌≡◌, refl, Option, some, [], ◌∷◌, ◌++◌, String, if◌then◌else◌, ◌==◌,
  string_eq, inl, inr, Bool-cases,
}
use sentinal_ai_control_room.Prelude.Results.{Result, ok, raise, value_error}
use sentinal_ai_control_room.Contracts.Values.{SignalCommand, Explanation, Forecast}
use sentinal_ai_control_room.Contracts.Events.{Delivered}
use sentinal_ai_control_room.Explainability.Generator.{
  counterfactual_for_opposing_axis, template_text,
}
use sentinal_ai_control_room.Explainability.Agent.{
  ExplanationGenerator, ExplainabilityAgent, check_texts, generate_text, explanation_of,
  explanation_event, on_decision,
}
use sentinal_ai_control_room.Explainability.Texts.{IsText, template_text-IsText}

-- Whether an answer is a text, and an empty one.
abbrev pub is_blank : Result String → Bool
is_blank (ok text) = text == ""
is_blank (raise exception) = false

-- The text that is expected for an answer: an exception is answered for by the template.
abbrev pub or_template : Result String → String → String
or_template (ok text) template = text
or_template (raise exception) template = template

module _ (fixed : ℕ → ℕ → String) (percent : ℕ → String) (g : ExplanationGenerator)
    (intersection_id : String) where
  abbrev pub answer : SignalCommand → Option Forecast → Result String
  answer command forecast =
      g.generate command (counterfactual_for_opposing_axis fixed percent command forecast)

  chosen :
      (command : SignalCommand) (c : Option String) (r : Result String)
      → g.generate command c ≡ r
      → (generate_text fixed percent (some g) intersection_id command c).0
        ≡ or_template r (template_text fixed percent command c)
  unfolding generate_text
  chosen command c (ok text) e = rw (generate_text, e) refl
  chosen command c (raise x) e = rw (generate_text, e) refl

  chosen-IsText :
      (command : SignalCommand) (c : Option String) (r : Result String)
      → g.generate command c ≡ r
      → is_blank r ≡ false
      → IsText (generate_text fixed percent (some g) intersection_id command c).0
  unfolding generate_text
  chosen-IsText command c (ok text) e h = rw (generate_text, e) h
  chosen-IsText command c (raise x) e h =
      rw (generate_text, e) (template_text-IsText fixed percent command c)

  chosen_blank :
      (command : SignalCommand) (c : Option String) (r : Result String)
      → g.generate command c ≡ r
      → is_blank r ≡ true
      → ((generate_text fixed percent (some g) intersection_id command c).0 == "") ≡ true
  unfolding generate_text
  chosen_blank command c (ok text) e h = rw (generate_text, e) h
  chosen_blank command c (raise x) e h = absurd (cc)

  -- For a decision that has a reason, the agent publishes one explanation, whether its generator
  -- answers or fails: with the generator's text or, when it fails, the template's, the decision's
  -- reason and the counterfactual. Only an answer without a character is neither taken nor replaced:
  -- then the agent raises and publishes nothing.
  pub on_decision-explains :
      (event : Delivered) (command : SignalCommand) (a : ExplainabilityAgent)
      → IsText command.reason_code
      → (e : Explanation) × (on_decision fixed percent (some g) intersection_id event command a ≡ (
          if is_blank (answer command a.forecast) then (a, raise value_error) else (
            record a {
              published =
                  a.published
                  ++ explanation_event fixed percent (some g) intersection_id event e ∷ [];
            },
            ok tt,
          )))
        × (e.decision_reason_code ≡ command.reason_code)
        × (e.counterfactual ≡ counterfactual_for_opposing_axis fixed percent command a.forecast)
        × (e.text
            ≡ or_template (answer command a.forecast) (
                template_text fixed percent command
                  (counterfactual_for_opposing_axis fixed percent command a.forecast)))
  unfolding on_decision check_texts
  on_decision-explains event command a reason =
      let c = counterfactual_for_opposing_axis fixed percent command a.forecast in
      let e = explanation_of fixed percent (some g) intersection_id command a.forecast in
      (
        e,
        elim (Bool-cases (is_blank (answer command a.forecast))) [
          | inl blank ↦ rw blank (
              rw (on_decision, reason, chosen_blank command c (g.generate command c) refl blank)
                refl)
          | inr written ↦ rw written (
              rw (on_decision, reason, chosen-IsText command c (g.generate command c) refl written)
                refl)
        ],
        refl,
        refl,
        chosen command c (g.generate command c) refl,
      )
