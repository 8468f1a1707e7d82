-- ===== src/Memory/Publishing.antt =====
-- How often the agent of libs/sentinel/memory/agent.py publishes a baseline.
use sentinal_ai_control_room.Prelude.{
  ℕ, ◌+◌, ◌*◌, ◌≤◌, ◌<◌, ◌≡◌, refl, true, some, List, [], ◌∷◌, ◌++◌, String, string_eq, ltb, leb,
  ◌==◌, inl, inr, Bool-cases, length, length-append, All, arith,
}
use sentinal_ai_control_room.Prelude.Results.{ok}
use sentinal_ai_control_room.Config.{MemorySettings}
use sentinal_ai_control_room.Contracts.Values.{IntersectionState, HistoricalContext}
use sentinal_ai_control_room.Memory.Repository
use sentinal_ai_control_room.Memory.Repository.{
  InMemoryStateHistoryRepository, push, window_of, append, baseline_of, baseline,
}
use sentinal_ai_control_room.Memory.Window.{window_of-append}
use sentinal_ai_control_room.Memory.Agent
use sentinal_ai_control_room.Memory.Agent.{
  TrafficMemoryAgent, baseline_event, publish_baseline, on_state,
}

-- A window that has just been appended to is not empty.
push_cons {ℓ} :
    {A : Type ℓ} (m : ℕ) (w : List A) (x : A)
    → 1 ≤ m
    → (y : A) × (ys : List A) × (push m w x ≡ y ∷ ys)
unfolding push
push_cons m [] x h = (x, [], ground (arith, h))
push_cons m (y ∷ []) x h = elim (Bool-cases (ltb m (length (y ∷ x ∷ [])))) [
  | inl e ↦ (x, [], rw e)
  | inr e ↦ (y, x ∷ [], rw e)
]
push_cons m (y ∷ z ∷ zs) x h = elim (Bool-cases (ltb m (length (y ∷ z ∷ (zs ++ x ∷ []))))) [
  | inl e ↦ (z, zs ++ x ∷ [], rw e)
  | inr e ↦ (y, z ∷ (zs ++ x ∷ []), rw e)
]

baseline_of_cons :
    (id : String) (x : IntersectionState) (xs : List IntersectionState)
    → (b : HistoricalContext) × (baseline_of id (x ∷ xs) ≡ some b)
baseline_of_cons id x xs = (_, refl)

baseline-append :
    (r : InMemoryStateHistoryRepository) (x : IntersectionState) (id : String)
    → 1 ≤ r.window_size
    → x.intersection_id ≡ id
    → (b : HistoricalContext) × (baseline (append r x) id ≡ some b)
unfolding baseline
baseline-append r x id h i =
    let (y, ys, e) = push_cons r.window_size (window_of r id) x h in
    let own : (x.intersection_id == id) ≡ true = (string_eq.test_iff x.intersection_id id).1 i in
    let w : window_of (append r x) id ≡ y ∷ ys = rw (window_of-append r x id, own) e in
    let (b, q) = baseline_of_cons id y ys in (b, rw w q)

module _ (s : MemorySettings) (id : String) where
  unfoldable pub on_states : TrafficMemoryAgent → List IntersectionState → TrafficMemoryAgent
  on_states a [] = a
  on_states a (x ∷ xs) = on_states (on_state s id a x) xs

  -- The snapshots that an agent has counted, from what it has published and its counter.
  abbrev pub counted : TrafficMemoryAgent → ℕ
  counted a = length a.published * s.baseline_publish_every + a.updates_since_publish

  record IsCounting (a : TrafficMemoryAgent) : Type 0 where
    window : 1 ≤ a.repository.window_size
    below : a.updates_since_publish < s.baseline_publish_every

  on_state-IsCounting :
      (a : TrafficMemoryAgent) (x : IntersectionState)
      → IsCounting a
      → x.intersection_id ≡ id
      → IsCounting (on_state s id a x) × (counted (on_state s id a x) ≡ counted a + 1)
  unfolding on_state publish_baseline append
  on_state-IsCounting a x i own =
      let (b, e) = baseline-append a.repository x id i.window own in
      elim (Bool-cases (leb s.baseline_publish_every (a.updates_since_publish + 1))) [
        | inl h ↦
            (let full : a.updates_since_publish + 1 ≡ s.baseline_publish_every =
                ground (arith, h, i.below) in
              let n : length (a.published ++ baseline_event s id b ∷ []) ≡ length a.published + 1 =
                length-append a.published (baseline_event s id b ∷ []) in
              let eq : on_state s id a x ≡ record {
                repository = append a.repository x;
                updates_since_publish = 0;
                published = a.published ++ baseline_event s id b ∷ [];
              } =
                rw (h, publish_baseline, e) in
              rw eq (
                record { window = i.window; below = omega (arith, full) },
                rw n (ground (arith, full)),
              ))
        | inr h ↦ rw h (record { window = i.window; below = ground (arith, h) }, omega arith)
      ]

  on_states-IsCounting :
      (a : TrafficMemoryAgent) (xs : List IntersectionState)
      → IsCounting a
      → All (λ (x : IntersectionState). x.intersection_id ≡ id) xs
      → IsCounting (on_states a xs) × (counted (on_states a xs) ≡ counted a + length xs)
  unfolding on_states
  on_states-IsCounting a [] i own = (i, omega arith)
  on_states-IsCounting a (x ∷ xs) i own =
      let (j, e) = on_state-IsCounting a x i own.0 in
      let (k, f) = on_states-IsCounting (on_state s id a x) xs j own.1 in (k, omega (arith, e, f))

  -- After any number of snapshots of its intersection, a new agent has published a baseline for
  -- every `baseline_publish_every` of them: the number of events and the counter are the quotient
  -- and the remainder.
  pub published-on_states :
      (a : TrafficMemoryAgent) (xs : List IntersectionState)
      → Agent.init s id ≡ ok a
      → 1 ≤ s.baseline_publish_every
      → All (λ (x : IntersectionState). x.intersection_id ≡ id) xs
      → (counted (on_states a xs) ≡ length xs)
        × ((on_states a xs).updates_since_publish < s.baseline_publish_every)
  unfolding Agent.init Repository.init
  published-on_states a xs h e own =
      let w : 1 ≤ a.repository.window_size = ground (arith, h) in
      let u : a.updates_since_publish ≡ 0 = ground (arith, h) in
      let p : a.published ≡ [] = ground (arith, h) in
      let z : counted a ≡ 0 = rw (p, u) (omega arith) in
      let (j, f) =
        on_states-IsCounting a xs (record { window = w; below = omega (arith, u, e) }) own in
      (omega (arith, f, z), j.below)
