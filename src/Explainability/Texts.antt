-- ===== src/Explainability/Texts.antt =====
-- The texts of `TemplateExplainer` of libs/sentinel/explainability/generator.py.
use Prim.Native.String.{◌++◌}
use text.Mathlib.TextLemmas.{append-eq-nil_iff}
use sentinal_ai_control_room.Prelude.{
  ℕ, Bool, true, false, ◌≡◌, refl, Option, none, some, String, if◌then◌else◌, ◌==◌, string_eq, inl,
  inr, Bool-cases,
}
use sentinal_ai_control_room.Contracts.Enums.{Axis, north_south, east_west, phase_axis}
use sentinal_ai_control_room.Contracts.Values.{SignalCommand}
use sentinal_ai_control_room.Explainability.Generator.{
  AxisFeatures, axis_label, axis_features, render, add_counterfactual, template_text,
}

abbrev pub IsText : String → Type 0
IsText s = (s == "") ≡ false

append-IsText : (p q : String) → IsText p → IsText (p ++ q)
append-IsText p q h = elim (Bool-cases ((p ++ q) == "")) [
  | inl e ↦
      (let both : p ++ q ≡ "" = (string_eq.test_iff (p ++ q) "").0 e in
        let first : p ≡ "" = (append-eq-nil_iff.0 both).0 in
        let same = (string_eq.test_iff p "").1 first in absurd (cc))
  | inr e ↦ e
]

if-IsText : (b : Bool) (x y : String) → IsText x → IsText y → IsText (if b then x else y)
if-IsText true x y h k = h
if-IsText false x y h k = k

axis_label-IsText : (axis : Option Axis) → IsText (axis_label axis)
axis_label-IsText none = refl
axis_label-IsText (some north_south) = refl
axis_label-IsText (some east_west) = refl

module _ (fixed : ℕ → ℕ → String) (percent : ℕ → String) where
  render-IsText :
      (reason axis : String) (f : AxisFeatures)
      → IsText axis
      → IsText (render fixed percent reason axis f)
  unfolding render
  render-IsText reason axis f h =
      if-IsText (reason == "current_axis_serving") _ _ (append-IsText axis _ h) (
        if-IsText (reason == "current_axis_congested") _ _ (append-IsText axis _ h) (
          if-IsText (reason == "current_axis_clearing") _ _ (append-IsText axis _ h) (
            if-IsText (reason == "opposing_demand_higher") _ _
              (append-IsText "Switching to " _ refl)
              (if-IsText (reason == "fairness_anti_starvation") _ _
                (append-IsText "Switching to " _ refl)
                (if-IsText (reason == "emergency_preemption") _ _
                  (append-IsText
                    "EMERGENCY OVERRIDE: preempting the signal to clear the path for an emergency vehicle on "
                    _ refl)
                  (if-IsText (reason == "clearance_interval") _ _
                    (append-IsText
                      "Signal is mid-transition (yellow/all-red clearance) before serving " _ refl)
                    (append-IsText axis _ h)))))))

  add_counterfactual-IsText :
      (text : String) (c : Option String)
      → IsText text
      → IsText (add_counterfactual fixed percent text c)
  add_counterfactual-IsText text none h = h
  add_counterfactual-IsText text (some c) h =
      if-IsText (c == "") text (text ++ " " ++ c) h (append-IsText text _ h)

  pub template_text-IsText :
      (command : SignalCommand) (c : Option String) → IsText (template_text fixed percent command c)
  unfolding template_text
  template_text-IsText command c =
      let axis = phase_axis command.target_phase in
      let text =
        render fixed percent command.reason_code (axis_label axis) (axis_features command) in
      add_counterfactual-IsText text c (
        render-IsText command.reason_code (axis_label axis) (axis_features command)
          (axis_label-IsText axis))
