-- ===== src/Simulation/Arrivals.antt =====
-- What arrives in the twin of libs/sentinel/simulation/analytical.py.
use sentinal_ai_control_room.Prelude.{
  ℕ, zero, suc, ◌+◌, ◌*◌, ◌≡◌, refl, ap, ◌∙◌, Bool, true, Option, some, List, [], ◌∷◌, ◌==◌, inl,
  inr, Bool-cases, Option-cases, arith,
}
use sentinal_ai_control_room.Prelude.Dict
use sentinal_ai_control_room.Prelude.Dict.{Dict, keys, AllEntries}
use sentinal_ai_control_room.Prelude.Results.{ok, raise, key_error, ◌>>=◌, >>=-eq-ok}
use sentinal_ai_control_room.Contracts.Enums.{Axis, Direction, direction_eq}
use sentinal_ai_control_room.Contracts.Values.{IntersectionState, SignalCommand}
use sentinal_ai_control_room.Simulation.Scenario.{EmergencyEvent, SimConfig, active_at}
use sentinal_ai_control_room.Simulation.Twin.{
  LaneSim, Environment, clear_emergencies, set_emergency, mark_emergencies, update_emergencies,
  observe, advance_lanes, green_axis, has_green, discharge, hold, moved, move, step,
}

-- The demand side of an approach: its direction, its rate and the vehicles that have arrived.
abbrev pub Demand : Type 0
Demand = Direction × ℕ × ℕ

abbrev pub traffic : Dict Direction LaneSim → List Demand
traffic [] = []
traffic ((d, lane) ∷ rest) = (d, lane.arrival_rate_vps, lane.arrived) ∷ traffic rest

traffic-clear : (lanes : Dict Direction LaneSim) → traffic (clear_emergencies lanes) ≡ traffic lanes
unfolding clear_emergencies
traffic-clear [] = refl
traffic-clear ((d, lane) ∷ rest) =
    ap (λ ds. (d, lane.arrival_rate_vps, lane.arrived) ∷ ds) (traffic-clear rest)

traffic-set :
    (lanes : Dict Direction LaneSim) (d : Direction) (lane : LaneSim) (b : Bool)
    → Dict.get lanes d ≡ some lane
    → traffic (Dict.set lanes d (record lane { emergency = b })) ≡ traffic lanes
unfolding Dict.get Dict.set
traffic-set [] d lane b h = ground (arith, h)
traffic-set ((j, x) ∷ rest) d lane b h = elim (Bool-cases (j == d)) [
  | inl i ↦ (let v : some x ≡ some lane = rw i at h in let same : x ≡ lane = cc in rw (i, same))
  | inr i ↦
      (let g : Dict.get rest d ≡ some lane = rw i at h in
        rw i (ap (λ ds. (j, x.arrival_rate_vps, x.arrived) ∷ ds) (traffic-set rest d lane b g)))
]

traffic-mark :
    (now : ℕ) (es : List EmergencyEvent) (lanes : Dict Direction LaneSim)
    {lanes' : Dict Direction LaneSim}
    → mark_emergencies now es lanes ≡ ok lanes'
    → traffic lanes' ≡ traffic lanes
unfolding mark_emergencies set_emergency
traffic-mark now [] lanes {lanes'} h = ground (arith, h)
traffic-mark now (e ∷ es) lanes {lanes'} h = elim (Bool-cases (active_at e now)) [
  | inl i ↦ elim (Option-cases (Dict.get lanes e.direction)) [
    | inl g ↦ (let f : raise key_error ≡ ok lanes' = rw (i, set_emergency, g) at h in absurd (cc))
    | inr (lane, g) ↦
        (let marked = record lane { emergency = true } in
          let f : mark_emergencies now es (Dict.set lanes e.direction marked) ≡ ok lanes' =
            rw (i, set_emergency, g) at h in
          traffic-mark now es (Dict.set lanes e.direction marked) f
          ∙ traffic-set lanes e.direction lane true g)
  ]
  | inr i ↦ traffic-mark now es lanes (rw i at h)
]

module _ {R : Type 0} (poisson : R → ℕ → ℕ × R) (seed : ℕ → R) (c : SimConfig) where
  -- What a tick does to the demand side: every approach draws from the generator in turn.
  unfoldable pub arrive_all : R → List Demand → List Demand × R
  arrive_all rng [] = ([], rng)
  arrive_all rng ((d, rate, arrived) ∷ rest) =
      let (n, rng') = poisson rng (rate * c.dt_s) in
      let (ds, rng'') = arrive_all rng' rest in ((d, rate, arrived + n) ∷ ds, rng'')

  traffic-advance :
      (green : Option Axis) (rng : R) (lanes : Dict Direction LaneSim)
      → (traffic (advance_lanes poisson seed c green rng lanes).0
          ≡ (arrive_all rng (traffic lanes)).0)
        × ((advance_lanes poisson seed c green rng lanes).1 ≡ (arrive_all rng (traffic lanes)).1)
  unfolding advance_lanes arrive_all discharge hold
  traffic-advance green rng [] = (refl, refl)
  traffic-advance green rng ((d, lane) ∷ rest) =
      let (n, rng') = poisson rng (lane.arrival_rate_vps * c.dt_s) in
      let (t, r) = traffic-advance green rng' rest in
      elim (Bool-cases (has_green green lane.direction)) [
        | inl h ↦ (rw (h, t), r)
        | inr h ↦ (rw (h, t), r)
      ]

  unfoldable pub demand_after : ℕ → R → List Demand → List Demand
  demand_after zero rng ds = ds
  demand_after (suc n) rng ds = let (ds', rng') = arrive_all rng ds in demand_after n rng' ds'

  traffic-move :
      (e : Environment R) (command : SignalCommand) {e' : Environment R}
      → move poisson seed c e command ≡ ok e'
      → (traffic e'.lanes ≡ (arrive_all e.rng (traffic e.lanes)).0)
        × (e'.rng ≡ (arrive_all e.rng (traffic e.lanes)).1)
  unfolding move update_emergencies
  traffic-move e command {e'} h =
      let phase = command.target_phase in
      let (lanes, m, f) =
        >>=-eq-ok (update_emergencies c e.time e.lanes)
          (λ lanes. ok (moved poisson seed c e phase lanes)) h in
      let same : moved poisson seed c e phase lanes ≡ e' = cc in
      let known : traffic lanes ≡ traffic e.lanes =
        traffic-mark e.time c.emergencies (clear_emergencies e.lanes) m ∙ traffic-clear e.lanes in
      let (t, r) = traffic-advance (green_axis phase) e.rng lanes in
      rw (← same) (rw (← known) (t, r))

  pub traffic-step :
      (e : Environment R) (command : SignalCommand) {e' : Environment R} {state : IntersectionState}
      → step poisson seed c e command ≡ ok (e', state)
      → (traffic e'.lanes ≡ (arrive_all e.rng (traffic e.lanes)).0)
        × (e'.rng ≡ (arrive_all e.rng (traffic e.lanes)).1)
  unfolding step
  traffic-step e command {e'} {state} h =
      let (e₁, m, f) =
        >>=-eq-ok (move poisson seed c e command)
          (λ e₁. observe poisson seed c e₁ >>= λ s. ok (e₁, s)) h in
      let (s, o, g) = >>=-eq-ok (observe poisson seed c e₁) (λ s. ok (e₁, s)) f in
      let same : e₁ ≡ e' = cc in rw (← same) (traffic-move e command m)
