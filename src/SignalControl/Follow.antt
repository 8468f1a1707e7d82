-- ===== src/SignalControl/Follow.antt =====
-- Reading back the `signal.changed` events of libs/sentinel/signal_control/agent.py.
use sentinal_ai_control_room.Prelude.{
  ◌≡◌, refl, ◌∙◌, ap, inl, inr, true, false, not, ◌&&◌, Option, none, some, List, [], ◌∷◌, ◌++◌,
  ◌==◌, if◌then◌else◌, Option-cases, beq_refl,
}
use sentinal_ai_control_room.Contracts.Enums.{SignalPhase, phase_eq}
use sentinal_ai_control_room.Contracts.Values.{SignalState}
use sentinal_ai_control_room.Contracts.Events.{Payload, signal_changed, DomainEvent}
use sentinal_ai_control_room.Control.Phase.{is_legal_transition}

-- A subscriber that follows the announcements from a phase that it knows. It gives up at an event
-- that does not start from the phase it is at, changes nothing, or makes an illegal transition.
unfoldable pub follow_one : SignalPhase → Payload → Option SignalPhase
follow_one p (signal_changed none signal) = if signal.phase == p then some p else none
follow_one p (signal_changed (some previous) signal) =
    if (previous.phase == p) && (not (signal.phase == p) && is_legal_transition p signal.phase)
    then some signal.phase
    else none
follow_one p _ = none

bind_option : Option SignalPhase → (SignalPhase → Option SignalPhase) → Option SignalPhase
bind_option none f = none
bind_option (some p) f = f p

unfoldable pub follow : SignalPhase → List DomainEvent → Option SignalPhase
unfolding bind_option
follow p [] = some p
follow p (e ∷ es) = bind_option (follow_one p e.payload) (λ q. follow q es)

bind_some : (o : Option SignalPhase) → bind_option o some ≡ o
unfolding bind_option
bind_some none = refl
bind_some (some p) = refl

pub follow-append :
    (p q : SignalPhase) (es : List DomainEvent) (e : DomainEvent)
    → follow p es ≡ some q
    → follow p (es ++ e ∷ []) ≡ follow_one q e.payload
unfolding follow
follow-append p q [] e h =
    let same : p ≡ q = cc in
    bind_some (follow_one p e.payload) ∙ ap (λ x. follow_one x e.payload) same
follow-append p q (d ∷ es) e h = elim (Option-cases (follow_one p d.payload)) [
  | inl off ↦ absurd (cc (ap (λ o. bind_option o (λ x. follow x es)) off))
  | inr (x, on) ↦ rw (on, bind_option) (follow-append x q es e (rw (on, bind_option) at h))
]

-- The phase of the last signal that the actuator was given.
abbrev pub last_phase : List SignalState → Option SignalPhase
last_phase [] = none
last_phase (x ∷ []) = some x.phase
last_phase (x ∷ y ∷ ys) = last_phase (y ∷ ys)

pub last_phase-append :
    (xs : List SignalState) (x : SignalState) → last_phase (xs ++ x ∷ []) ≡ some x.phase
last_phase-append [] x = refl
last_phase-append (y ∷ []) x = refl
last_phase-append (y ∷ z ∷ zs) x = last_phase-append (z ∷ zs) x

-- An announced legal change is followed.
pub follow_one-change :
    (previous signal : SignalState)
    → (signal.phase == previous.phase) ≡ false
    → is_legal_transition previous.phase signal.phase ≡ true
    → follow_one previous.phase (signal_changed (some previous) signal) ≡ some signal.phase
unfolding follow_one
follow_one-change previous signal h k = rw (beq_refl previous.phase, h, k)
