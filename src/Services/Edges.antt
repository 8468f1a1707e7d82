-- ===== src/Services/Edges.antt =====
-- When `IncidentDetectionAgent` of libs/sentinel/services/agents.py raises an incident.
use sentinal_ai_control_room.Prelude.{
  ℕ, true, false, not, ◌&&◌, ◌≡◌, refl, ap, ◌∙◌, List, [], ◌∷◌, ◌++◌, map, String, append-append,
  append-nil, if◌then◌else◌, ◌==◌, inl, inr, Bool-cases, arith,
}
use sentinal_ai_control_room.Prelude.Dict
use sentinal_ai_control_room.Prelude.Dict.{listed}
use sentinal_ai_control_room.Prelude.Distinct.{AllDistinct, listed-snoc, listed-append}
use sentinal_ai_control_room.Contracts.Values.{LaneState, IntersectionState, Incident}
use sentinal_ai_control_room.Contracts.Events.{Delivered}
use sentinal_ai_control_room.Services.Incidents.{
  IncidentRule, ActiveKey, IncidentService, key_of, detect_lanes, detect, active_of, intersect,
  forget_resolved, incident_event, raise_all, on_state, active_key_eq,
}

abbrev pub keys_of : List Incident → List ActiveKey
keys_of = map key_of

-- The incidents whose keys are not known yet, each key once.
abbrev pub fresh : List ActiveKey → List Incident → List Incident
fresh known [] = []
fresh known (i ∷ rest) =
    if listed known (key_of i) then fresh known rest else i ∷ fresh (known ++ key_of i ∷ []) rest

listed-fresh :
    (known : List ActiveKey) (is : List Incident) (k : ActiveKey)
    → listed (keys_of (fresh known is)) k ≡ (listed (keys_of is) k && not (listed known k))
listed-fresh known [] k = refl
listed-fresh known (i ∷ rest) k = elim (Bool-cases (listed known (key_of i))) [
  | inl h ↦
      rw (h, listed-fresh known rest k)
        (elim (Bool-cases (key_of i == k)) [
          | inl e ↦
              (let same : key_of i ≡ k = (active_key_eq.test_iff (key_of i) k).0 e in
                let h' : listed known k ≡ true = rw (← same) h in rw (e, h') (ground arith))
          | inr e ↦ rw e refl
        ])
  | inr h ↦
      rw (h, listed-fresh (known ++ key_of i ∷ []) rest k, listed-snoc known (key_of i) k)
        (elim (Bool-cases (key_of i == k)) [
          | inl e ↦
              (let same : key_of i ≡ k = (active_key_eq.test_iff (key_of i) k).0 e in
                let h' : listed known k ≡ false = rw (← same) h in rw (e, h') refl)
          | inr e ↦ rw e (ground arith)
        ])
]

fresh-AllDistinct :
    (known : List ActiveKey) (is : List Incident) → AllDistinct (keys_of (fresh known is))
fresh-AllDistinct known [] = tt
fresh-AllDistinct known (i ∷ rest) = elim (Bool-cases (listed known (key_of i))) [
  | inl h ↦ rw h (fresh-AllDistinct known rest)
  | inr h ↦ rw h (
    listed-fresh (known ++ key_of i ∷ []) rest (key_of i)
        ∙ (rw (listed-snoc known (key_of i) (key_of i))
            (ground (arith, active_key_eq.test_iff (key_of i) (key_of i)))),
    fresh-AllDistinct (known ++ key_of i ∷ []) rest,
  )
]

module _ (rule : IncidentRule) where
  active_of-detect :
      (id : String) (now : ℕ) (lanes : List LaneState)
      → active_of rule lanes ≡ keys_of (detect_lanes rule id now lanes)
  unfolding active_of detect_lanes
  active_of-detect id now [] = refl
  active_of-detect id now (lane ∷ rest) = ground (arith, active_of-detect id now rest)

  listed-intersect :
      (ks active : List ActiveKey) (k : ActiveKey)
      → listed (intersect rule ks active) k ≡ (listed ks k && listed active k)
  unfolding intersect
  listed-intersect [] active k = refl
  listed-intersect (j ∷ ks) active k = elim (Bool-cases (j == k)) [
    | inl e ↦
        (let same : j ≡ k = (active_key_eq.test_iff j k).0 e in
          ground (arith, listed-intersect ks active k, same))
    | inr e ↦ ground (arith, listed-intersect ks active k)
  ]

  module _ (name : String) where
    raise_all-fresh :
        (event : Delivered) (a : IncidentService) (is : List Incident)
        → raise_all rule name event a is ≡ record {
          active_keys = a.active_keys ++ keys_of (fresh a.active_keys is);
          published = a.published ++ map (incident_event rule name event) (fresh a.active_keys is);
        }
    unfolding raise_all
    raise_all-fresh event a [] = rw (append-nil a.active_keys, append-nil a.published) refl
    raise_all-fresh event a (i ∷ rest) = elim (Bool-cases (listed a.active_keys (key_of i))) [
      | inl h ↦ rw h (raise_all-fresh event a rest)
      | inr h ↦
          (let b : IncidentService = record {
            active_keys = a.active_keys ++ key_of i ∷ [];
            published = a.published ++ incident_event rule name event i ∷ [];
          } in
            let news = fresh b.active_keys rest in
            rw (raise_all, h)
              (raise_all-fresh event b rest
                ∙ (rw
                    (
                      ← append-append a.active_keys (key_of i ∷ []) (keys_of news),
                      ← append-append a.published (incident_event rule name event i ∷ [])
                          (map (incident_event rule name event) news),
                    )
                    refl)))
    ]

    -- After a snapshot, the active keys are those of the incidents that it shows.
    listed-on_state :
        (now : ℕ) (event : Delivered) (state : IntersectionState) (a : IncidentService)
        (k : ActiveKey)
        → listed (on_state rule name now event state a).active_keys k
          ≡ listed (keys_of (detect rule now state)) k
    unfolding on_state forget_resolved detect
    listed-on_state now event state a k =
        let lanes = Dict.values state.lanes in
        let shown = detect_lanes rule state.intersection_id now lanes in
        let known = a.active_keys in
        rw
          (
            raise_all-fresh event a shown,
            listed-intersect (known ++ keys_of (fresh known shown)) (active_of rule lanes) k,
            active_of-detect state.intersection_id now lanes,
            listed-append known (keys_of (fresh known shown)) k,
            listed-fresh known shown k,
          )
          (ground arith)

    -- The incidents published for a snapshot have each key at most once, and their keys are those of
    -- the incidents that it shows and the snapshot before it did not: an incident is raised when it
    -- appears, not again while it lasts, and again when it comes back.
    pub published-on_state :
        (now now' : ℕ) (event event' : Delivered) (state state' : IntersectionState)
        (a : IncidentService)
        → (news : List Incident) × ((on_state rule name now' event' state'
              (on_state rule name now event state a)).published
            ≡ (on_state rule name now event state a).published
              ++ map (incident_event rule name event') news)
          × AllDistinct (keys_of news)
          × ((k : ActiveKey)
              → listed (keys_of news) k ≡ (
                  listed (keys_of (detect rule now' state')) k
                  && not (listed (keys_of (detect rule now state)) k)))
    unfolding on_state forget_resolved
    published-on_state now now' event event' state state' a =
        let b = on_state rule name now event state a in
        let shown = detect rule now' state' in
        (
          fresh b.active_keys shown,
          ap (λ (c : IncidentService). c.published) (raise_all-fresh event' b shown),
          fresh-AllDistinct b.active_keys shown,
          λ k. listed-fresh b.active_keys shown k ∙ (rw (listed-on_state now event state a k) refl),
        )
