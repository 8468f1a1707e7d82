-- ===== src/Incident/Reporting.antt =====
-- What the agent of libs/sentinel/incident/agent.py does with what its rules find.
use sentinal_ai_control_room.Prelude.{
  ℕ, ◌+◌, ◌<◌, ◌≡◌, refl, ◌∙◌, sym, ap, some, List, [], ◌∷◌, ◌++◌, append-append, append-nil, ltb,
  ◌⊎◌, ◌==◌, inl, inr, false, Bool-cases, Option-cases, String, All, arith,
}
use mathlib.Core.Path.{subst}
use sentinal_ai_control_room.Prelude.Dict
use sentinal_ai_control_room.Prelude.Dict.{Dict, get-set}
use sentinal_ai_control_room.Config.{IncidentSettings}
use sentinal_ai_control_room.Contracts.Values.{IntersectionState, Incident}
use sentinal_ai_control_room.Contracts.Events.{DomainEvent, Delivered}
use sentinal_ai_control_room.Incident.Rules.{stalled_vehicle_rule, abnormal_congestion_rule}
use sentinal_ai_control_room.Incident.Agent.{
  Key, key_eq, key_of, IncidentDetectionAgent, too_soon, incident_event, raise_incident, raise_all,
  on_state,
}

module _ (s : IncidentSettings) (id : String) (event : Delivered) (now : ℕ) where
  -- One of the events reports an incident with this key.
  abbrev pub Announced : List DomainEvent → Key → Type 0
  Announced [] k = ⊥
  Announced (e ∷ news) k =
      ((p : Incident) × (e ≡ incident_event s id event p) × (key_of p ≡ k)) ⊎ Announced news k

  Announced-left :
      (news more : List DomainEvent) (k : Key) → Announced news k → Announced (news ++ more) k
  Announced-left [] more k h = elim h [ ]
  Announced-left (e ∷ news) more k (inl h) = inl h
  Announced-left (e ∷ news) more k (inr h) = inr (Announced-left news more k h)

  Announced-right :
      (news more : List DomainEvent) (k : Key) → Announced more k → Announced (news ++ more) k
  Announced-right [] more k h = h
  Announced-right (e ∷ news) more k h = inr (Announced-right news more k h)

  module _ (before : IncidentDetectionAgent) where
    -- The incident is reported by one of the news, or its key was raised before, less than
    -- `debounce_s` ago.
    abbrev pub IsReported : List DomainEvent → Incident → Type 0
    IsReported news q =
        ((n : ℕ) × (Dict.get before.last_raised (key_of q) ≡ some n) × (now < n + s.debounce_s))
        ⊎ Announced news (key_of q)

    -- The agent has published the news, and its table has nothing else that is new.
    record IsAfter (news : List DomainEvent) (a : IncidentDetectionAgent) : Type 0 where
      pub sent : a.published ≡ before.published ++ news
      pub told :
          (k : Key) (n : ℕ)
          → Dict.get a.last_raised k ≡ some n
          → (Dict.get before.last_raised k ≡ some n) ⊎ Announced news k

    All-IsReported-left :
        (news more : List DomainEvent) (qs : List Incident)
        → All (IsReported news) qs
        → All (IsReported (news ++ more)) qs
    All-IsReported-left news more [] h = tt
    All-IsReported-left news more (q ∷ qs) h = (
      elim h.0 [ inl old ↦ inl old | inr new ↦ inr (Announced-left news more (key_of q) new) ],
      All-IsReported-left news more qs h.1,
    )

    module _ (news : List DomainEvent) (a : IncidentDetectionAgent) (q : Incident) where
      Announced-own : Announced (news ++ incident_event s id event q ∷ []) (key_of q)
      Announced-own =
          Announced-right news (incident_event s id event q ∷ []) (key_of q) (inl (q, refl, refl))

      raise_incident-new :
          IsAfter news a
          → too_soon s id now (Dict.get a.last_raised (key_of q)) ≡ false
          → IsAfter (news ++ incident_event s id event q ∷ []) (raise_incident s id event now a q)
      unfolding raise_incident
      raise_incident-new i h = rw h (record {
        sent =
            ap (λ es. es ++ incident_event s id event q ∷ []) i.sent
            ∙ sym (append-append before.published news (incident_event s id event q ∷ []));
        told = λ k n g. elim (Bool-cases (key_of q == k)) [
          | inl e ↦ inr (rw (← (key_eq.test_iff (key_of q) k).0 e) Announced-own)
          | inr e ↦ elim (i.told k n (rw (get-set a.last_raised (key_of q) k now, e) at g)) [
            | inl old ↦ inl old
            | inr new ↦ inr (Announced-left news (incident_event s id event q ∷ []) k new)
          ]
        ];
      })

      -- The news after one more finding.
      abbrev Next : Type 0
      Next =
          (more : List DomainEvent) × IsAfter (news ++ more) (raise_incident s id event now a q)
          × IsReported (news ++ more) q

      raise_incident-Next : IsAfter news a → Next
      unfolding raise_incident
      raise_incident-Next i = elim (Option-cases (Dict.get a.last_raised (key_of q))) [
        | inl e ↦
            (incident_event s id event q ∷ [], raise_incident-new i (rw e refl), inr Announced-own)
        | inr (n, e) ↦ elim (Bool-cases (ltb now (n + s.debounce_s))) [
          | inl h ↦ (
            [],
            rw (append-nil news, e, h) i,
            rw (append-nil news) (elim (i.told (key_of q) n e) [
              | inl old ↦ inl (n, old, ground (arith, h))
              | inr new ↦ inr new
            ]),
          )
          | inr h ↦ (
            incident_event s id event q ∷ [],
            raise_incident-new i (rw (e, h) refl),
            inr Announced-own,
          )
        ]
      ]

    raise_all-IsReported :
        (news : List DomainEvent) (a : IncidentDetectionAgent) (qs : List Incident)
        → IsAfter news a
        → (more : List DomainEvent) × IsAfter (news ++ more) (raise_all s id event now a qs)
          × All (IsReported (news ++ more)) qs
    unfolding raise_all
    raise_all-IsReported news a [] i = ([], rw (append-nil news) i, tt)
    raise_all-IsReported news a (q ∷ qs) i =
        let (one, j, own) = raise_incident-Next news a q i in
        let (more, k, rest) =
          raise_all-IsReported (news ++ one) (raise_incident s id event now a q) qs j in
        let same = append-append news one more in
        let first = All-IsReported-left (news ++ one) more (q ∷ []) (own, tt) in
        let all : All (IsReported ((news ++ one) ++ more)) (q ∷ qs) = (first.0, rest) in
        (one ++ more, rw same k, subst (λ es. All (IsReported es) (q ∷ qs)) (sym same) all)

-- No finding is lost. A snapshot adds some events to what the agent has published, and every
-- incident that one of the two rules finds in it is reported by one of them, under its key, unless
-- that key stood in the table before with an instant that is not `debounce_s` before the snapshot's:
-- less, or, where snapshots come out of order, none at all.
pub on_state-IsReported :
    (s : IncidentSettings) (id : String) (a : IncidentDetectionAgent) (event : Delivered)
    (state : IntersectionState)
    → (news : List DomainEvent) × ((on_state s id a event state).published ≡ a.published ++ news)
      × All (IsReported s id event state.timestamp a news) (stalled_vehicle_rule s state)
      × All
          (IsReported s id event state.timestamp a news)
          (abnormal_congestion_rule s state a.baseline)
unfolding on_state
on_state-IsReported s id a event state =
    let now = state.timestamp in
    let found = stalled_vehicle_rule s state in
    let more = abnormal_congestion_rule s state a.baseline in
    let start : IsAfter s id event now a [] a = record {
      sent = sym (append-nil a.published);
      told = λ k n g. inl g;
    } in
    let (one, i, stalled) = raise_all-IsReported s id event now a [] a found start in
    let (two, j, congested) =
      raise_all-IsReported s id event now a one (raise_all s id event now a found) more i in
    (one ++ two, j.sent, All-IsReported-left s id event now a one two found stalled, congested)
