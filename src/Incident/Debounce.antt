-- ===== src/Incident/Debounce.antt =====
-- How often the agent of libs/sentinel/incident/agent.py raises the same incident.
use sentinal_ai_control_room.Prelude.{
  ℕ, ◌+◌, ◌≤◌, ◌≡◌, ap, ◌∙◌, false, some, List, [], ◌∷◌, ◌++◌, String, ltb, ◌==◌, inl, inr,
  Bool-cases, All, All-append, append-nil, append-append, arith,
}
use sentinal_ai_control_room.Prelude.Dict
use sentinal_ai_control_room.Prelude.Dict.{Dict, get-set, get-set_self}
use sentinal_ai_control_room.Config.{IncidentSettings}
use sentinal_ai_control_room.Contracts.Values.{IntersectionState, Incident}
use sentinal_ai_control_room.Contracts.Events.{
  Payload, state_updated, baseline_updated, incident_detected, explanation_generated,
  prediction_updated, decision_made, signal_changed, system_mode_changed, agent_heartbeat,
  DomainEvent, Delivered,
}
use sentinal_ai_control_room.Incident.Rules.{stalled_vehicle_rule, abnormal_congestion_rule}
use sentinal_ai_control_room.Incident.Stamps.{stalled_rule-IsStamped, congestion_rule-IsStamped}
use sentinal_ai_control_room.Incident.Agent.{
  Key, key_eq, key_beq_iff, key_of, IncidentDetectionAgent, init, too_soon, incident_event,
  raise_incident, raise_all, on_state, dispatch, receive, receive_all,
}

-- The incidents of a log of events.
abbrev pub raised_by : Payload → List Incident
raised_by (incident_detected i) = i ∷ []
raised_by _ = []

abbrev pub raised : List DomainEvent → List Incident
raised [] = []
raised (e ∷ es) = raised_by e.payload ++ raised es

-- Of any two incidents of the same key, the later one was detected at least `gap` after the other.
abbrev pub Apart : ℕ → List Incident → Type 0
Apart gap [] = Unit
Apart gap (p ∷ ps) =
    All (λ (q : Incident). key_of p ≡ key_of q → p.detected_at + gap ≤ q.detected_at) ps
    × Apart gap ps

Apart-append :
    (gap : ℕ) (ps : List Incident) (q : Incident)
    → Apart gap ps
    → All (λ (p : Incident). key_of p ≡ key_of q → p.detected_at + gap ≤ q.detected_at) ps
    → Apart gap (ps ++ q ∷ [])
Apart-append gap [] q h k = (tt, tt)
Apart-append gap (p ∷ ps) q h k = (
  All-append (λ (x : Incident). key_of p ≡ key_of x → p.detected_at + gap ≤ x.detected_at) ps
      (q ∷ []) h.0 (k.0, tt),
  Apart-append gap ps q h.1 k.1,
)

All-map {ℓ κ μ} :
    {A : Type ℓ} (P : A → Type κ) (Q : A → Type μ) (xs : List A)
    → ((x : A) → P x → Q x)
    → All P xs
    → All Q xs
All-map P Q [] f h = tt
All-map P Q (x ∷ xs) f h = (f x h.0, All-map P Q xs f h.1)

raised-append :
    (es : List DomainEvent) (e : DomainEvent)
    → raised (es ++ e ∷ []) ≡ raised es ++ raised_by e.payload
raised-append [] e = append-nil (raised_by e.payload)
raised-append (x ∷ es) e =
    ap (λ zs. raised_by x.payload ++ zs) (raised-append es e)
    ∙ append-append (raised_by x.payload) (raised es) (raised_by e.payload)

-- A published incident has its key in the table, with its instant or a later one.
Covered : Dict Key ℕ → Incident → Type 0
Covered t p = (n : ℕ) × (Dict.get t (key_of p) ≡ some n) × (p.detected_at ≤ n)

module _ (s : IncidentSettings) (id : String) where
  pub record IsSpaced (a : IncidentDetectionAgent) : Type 0 where
    apart : Apart s.debounce_s (raised a.published)
    covered : All (Covered a.last_raised) (raised a.published)

  waited :
      (t : Dict Key ℕ) (q p : Incident) (now : ℕ)
      → too_soon s id now (Dict.get t (key_of q)) ≡ false
      → q.detected_at ≡ now
      → Covered t p
      → key_of p ≡ key_of q
      → p.detected_at + s.debounce_s ≤ q.detected_at
  unfolding Covered
  waited t q p now h e (n, g, l) k =
      let g' : Dict.get t (key_of q) ≡ some n = rw (← k) g in
      let f : ltb now (n + s.debounce_s) ≡ false = rw g' at h in ground (arith, f, l, e)

  kept :
      (t : Dict Key ℕ) (q p : Incident) (now : ℕ)
      → too_soon s id now (Dict.get t (key_of q)) ≡ false
      → Covered t p
      → Covered (Dict.set t (key_of q) now) p
  unfolding Covered
  kept t q p now h (n, g, l) = elim (Bool-cases (key_of q == key_of p)) [
    | inl e ↦
        (let k : key_of q ≡ key_of p = (key_beq_iff (key_of q) (key_of p)).0 e in
          let g' : Dict.get t (key_of q) ≡ some n = rw k g in
          let f : ltb now (n + s.debounce_s) ≡ false = rw g' at h in
          (now, rw (get-set t (key_of q) (key_of p) now, e), ground (arith, f, l)))
    | inr e ↦ (n, rw (get-set t (key_of q) (key_of p) now, e) g, l)
  ]

  fresh :
      (t : Dict Key ℕ) (q : Incident) (now : ℕ)
      → q.detected_at ≡ now
      → Covered (Dict.set t (key_of q) now) q
  unfolding Covered
  fresh t q now e = (now, get-set_self t (key_of q) now, ground (arith, e))

  raise-IsSpaced :
      (event : Delivered) (now : ℕ) (a : IncidentDetectionAgent) (q : Incident)
      → q.detected_at ≡ now
      → IsSpaced a
      → IsSpaced (raise_incident s id event now a q)
  unfolding raise_incident
  raise-IsSpaced event now a q e i =
      elim (Bool-cases (too_soon s id now (Dict.get a.last_raised (key_of q)))) [
        | inl h ↦ rw h i
        | inr h ↦
            (let ps = raised a.published in
              let more : raised (a.published ++ incident_event s id event q ∷ []) ≡ ps ++ q ∷ [] =
                raised-append a.published (incident_event s id event q) in
              rw h (record {
                apart = rw more (
                    Apart-append s.debounce_s ps q i.apart (
                      All-map (Covered a.last_raised)
                        (λ (p : Incident).
                          key_of p ≡ key_of q → p.detected_at + s.debounce_s ≤ q.detected_at)
                        ps (λ p c. waited a.last_raised q p now h e c) i.covered));
                covered = rw more (
                    All-append (Covered (Dict.set a.last_raised (key_of q) now)) ps (q ∷ [])
                      (All-map (Covered a.last_raised)
                        (Covered (Dict.set a.last_raised (key_of q) now)) ps
                        (λ p c. kept a.last_raised q p now h c) i.covered)
                      (fresh a.last_raised q now e, tt));
              }))
      ]

  raise_all-IsSpaced :
      (event : Delivered) (now : ℕ) (a : IncidentDetectionAgent) (qs : List Incident)
      → All (λ (q : Incident). q.detected_at ≡ now) qs
      → IsSpaced a
      → IsSpaced (raise_all s id event now a qs)
  unfolding raise_all
  raise_all-IsSpaced event now a [] h i = i
  raise_all-IsSpaced event now a (q ∷ qs) h i =
      raise_all-IsSpaced event now (raise_incident s id event now a q) qs h.1
        (raise-IsSpaced event now a q h.0 i)

  on_state-IsSpaced :
      (a : IncidentDetectionAgent) (event : Delivered) (state : IntersectionState)
      → IsSpaced a
      → IsSpaced (on_state s id a event state)
  unfolding on_state
  on_state-IsSpaced a event state i =
      let now = state.timestamp in
      let j =
        raise_all-IsSpaced event now a (stalled_vehicle_rule s state)
          (stalled_rule-IsStamped s state) i in
      raise_all-IsSpaced event now (raise_all s id event now a (stalled_vehicle_rule s state))
        (abnormal_congestion_rule s state a.baseline) (congestion_rule-IsStamped s state a.baseline)
        j

  dispatch-IsSpaced :
      (a : IncidentDetectionAgent) (event : Delivered) (payload : Payload)
      → IsSpaced a
      → IsSpaced (dispatch s id a event payload)
  unfolding dispatch
  dispatch-IsSpaced a event (state_updated state) i = on_state-IsSpaced a event state i
  dispatch-IsSpaced a event (baseline_updated _) i = record { apart = i.apart; covered = i.covered }
  dispatch-IsSpaced a event (agent_heartbeat _) i = i
  dispatch-IsSpaced a event (prediction_updated _) i = i
  dispatch-IsSpaced a event (decision_made _) i = i
  dispatch-IsSpaced a event (signal_changed _ _) i = i
  dispatch-IsSpaced a event (incident_detected _) i = i
  dispatch-IsSpaced a event (explanation_generated _) i = i
  dispatch-IsSpaced a event (system_mode_changed _ _ _) i = i

  receive_all-IsSpaced :
      (a : IncidentDetectionAgent) (events : List Delivered)
      → IsSpaced a
      → IsSpaced (receive_all s id a events)
  unfolding receive_all receive
  receive_all-IsSpaced a [] i = i
  receive_all-IsSpaced a (e ∷ es) i =
      receive_all-IsSpaced (receive s id a e) es (dispatch-IsSpaced a e e.event.payload i)

  -- Whatever events an agent gets, in whatever order their instants come: of any two incidents that
  -- it has raised for the same direction and type, the one raised later was detected at least
  -- `debounce_s` after the other.
  pub receive_all-Apart :
      (events : List Delivered)
      → Apart s.debounce_s (raised (receive_all s id init events).published)
  unfolding init
  receive_all-Apart events =
      (receive_all-IsSpaced init events (record { apart = tt; covered = tt })).apart
