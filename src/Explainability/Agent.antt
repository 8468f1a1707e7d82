-- ===== src/Explainability/Agent.antt =====
-- `ExplainabilityAgent` of libs/sentinel/explainability/agent.py, with the templates as its fallback. A
-- generator answers with a text or an exception, which a timeout is too.
use sentinal_ai_control_room.Prelude.{
  ℕ, ◌||◌, Option, none, some, List, [], ◌∷◌, ◌++◌, String, if◌then◌else◌, ◌==◌, string_eq,
}
use sentinal_ai_control_room.Prelude.Results.{Result, ok, raise, value_error}
use sentinal_ai_control_room.Contracts.Values.{SignalCommand, Forecast, Explanation}
use sentinal_ai_control_room.Contracts.Events.{
  decision_made, prediction_updated, explanation_generated, DomainEvent, Delivered, correlation,
}
use sentinal_ai_control_room.Explainability.Generator.{
  counterfactual_for_opposing_axis, template_text,
}

pub record ExplanationGenerator : Type 0 where
  pub generate : SignalCommand → Option String → Result String
  pub name : String
  pub model_id : Option String

pub record ExplainabilityAgent : Type 0 where
  pub forecast : Option Forecast
  pub published : List DomainEvent

-- Building an `Explanation`, with the lengths of its texts. The id of the intersection, which is the
-- agent's own, is taken not to be empty.
unfoldable pub check_texts : Explanation → Result Explanation
check_texts e = if e.decision_reason_code == "" || e.text == "" then raise value_error else ok e

module _ (fixed : ℕ → ℕ → String) (percent : ℕ → String) (generator : Option ExplanationGenerator)
    (intersection_id : String) where
  -- `_generate`, where no generator stands for the fallback itself.
  unfoldable pub generate_text : SignalCommand → Option String → String × String × Option String
  generate_text command counterfactual =
      let fallback : String × String × Option String =
        (template_text fixed percent command counterfactual, "template", none) in
      elim generator [
        | none ↦ fallback
        | some g ↦ (elim (g.generate command counterfactual) [
          | ok text ↦ (text, g.name, g.model_id)
          | raise exception ↦ fallback
        ])
      ]

  abbrev pub explanation_of : SignalCommand → Option Forecast → Explanation
  explanation_of command forecast =
      let counterfactual = counterfactual_for_opposing_axis fixed percent command forecast in
      let (text, name, model_id) = generate_text command counterfactual in
      record {
        intersection_id = intersection_id;
        decision_reason_code = command.reason_code;
        text = text;
        counterfactual = counterfactual;
        generator = name;
        model_id = model_id;
      }

  abbrev pub explanation_event : Delivered → Explanation → DomainEvent
  explanation_event event explanation = record {
    source = "explainability-agent";
    intersection_id = intersection_id;
    correlation_id = some (correlation event);
    causation_id = some event.event_id;
    payload = explanation_generated explanation;
  }

  unfoldable pub on_decision :
      Delivered → SignalCommand → ExplainabilityAgent → ExplainabilityAgent × Result (Unit {0})
  unfolding generate_text check_texts
  on_decision event command a = elim (check_texts (explanation_of command a.forecast)) [
    | raise exception ↦ (a, raise exception)
    | ok explanation ↦
        (record a { published = a.published ++ explanation_event event explanation ∷ [] }, ok tt)
  ]

  unfoldable pub receive : Delivered → ExplainabilityAgent → ExplainabilityAgent × Result (Unit {0})
  unfolding on_decision
  receive event a = elim event.event.payload [
    | decision_made command ↦ on_decision event command a
    | prediction_updated forecast ↦ (record a { forecast = some forecast }, ok tt)
    | _ ↦ (a, ok tt)
  ]
