-- ===== src/Simulation/Lanes.antt =====
-- What a tick of the twin of libs/sentinel/simulation/analytical.py keeps true of its lanes.
use sentinal_ai_control_room.Prelude.{
  ℕ, ◌+◌, ◌*◌, ◌≤◌, ◌≡◌, refl, ap, ◌∙◌, Bool, true, false, Option, List, [], ◌∷◌, ◌==◌, inl, inr,
  Bool-cases, nat_beq, leb, arith,
}
use native.Mathlib.Nat.{mul-add}
use sentinal_ai_control_room.Prelude.Dict
use sentinal_ai_control_room.Prelude.Dict.{
  Dict, keys, AllEntries, AllEntries-get, AllEntries-set, listed, get-listed, keys-set_known,
}
use sentinal_ai_control_room.Prelude.Results.{ok}
use sentinal_ai_control_room.Contracts.Enums.{Axis, Direction, direction_eq}
use sentinal_ai_control_room.Contracts.Values.{LaneState, check_counts, lanes_consistent}
use sentinal_ai_control_room.Simulation.Scenario.{LaneDemand, EmergencyEvent, SimConfig, active_at}
use sentinal_ai_control_room.Simulation.Twin.{
  LaneSim, new_lane, new_lanes, clear_emergencies, set_emergency, mark_emergencies, has_green,
  discharge, hold, arrive, account, serve_lane, lane_state, lane_states,
}

-- At time `t`: the lane reports the direction that it is kept under, every vehicle that has arrived
-- has been served or waits, the longest queue is on record, and the approach has not discharged
-- more than the saturation flow allows.
pub record IsConserving (c : SimConfig) (t : ℕ) (d : Direction) (lane : LaneSim) : Type 0 where
  pub keyed : lane.direction ≡ d
  pub balanced : lane.arrived ≡ lane.served + lane.queue
  pub peak : lane.queue ≤ lane.max_queue
  pub saturated : lane.served * 1_000_000 + lane.capacity ≤ c.saturation_flow_vps * t

abbrev pub AllConserving : SimConfig → ℕ → Dict Direction LaneSim → Type 0
AllConserving c t = AllEntries (IsConserving c t)

-- Every emergency is on an approach of the scenario.
abbrev pub AllListed : List Direction → List EmergencyEvent → Type 0
AllListed ks [] = Unit
AllListed ks (e ∷ es) = (listed ks e.direction ≡ true) × AllListed ks es

-- The same, before the longest queue is brought up to date.
record IsBalanced (c : SimConfig) (t : ℕ) (d : Direction) (lane : LaneSim) : Type 0 where
  keyed : lane.direction ≡ d
  balanced : lane.arrived ≡ lane.served + lane.queue
  saturated : lane.served * 1_000_000 + lane.capacity ≤ c.saturation_flow_vps * t

module _ (c : SimConfig) where
  discharge-IsBalanced :
      (t : ℕ) (d : Direction) (lane : LaneSim)
      → IsBalanced c t d lane
      → IsBalanced c (t + c.dt_s) d (discharge c lane)
  unfolding discharge
  discharge-IsBalanced t d lane i =
      let m = mul-add c.saturation_flow_vps t c.dt_s in
      record {
        keyed = i.keyed;
        balanced = ground (arith, i.balanced);
        saturated = ground (arith, m, i.saturated);
      }

  hold-IsBalanced :
      (t : ℕ) (d : Direction) (lane : LaneSim)
      → IsBalanced c t d lane
      → IsBalanced c (t + c.dt_s) d (hold lane)
  unfolding hold
  hold-IsBalanced t d lane i =
      let m = mul-add c.saturation_flow_vps t c.dt_s in
      record { keyed = i.keyed; balanced = i.balanced; saturated = omega (arith, m, i.saturated) }

  account-IsConserving :
      (t : ℕ) (d : Direction) (lane : LaneSim)
      → IsBalanced c t d lane
      → IsConserving c t d (account c lane)
  account-IsConserving t d lane i = record {
    keyed = i.keyed;
    balanced = i.balanced;
    peak = omega arith;
    saturated = i.saturated;
  }

  pub serve_lane-IsConserving :
      (green : Option Axis) (n t : ℕ) (d : Direction) (lane : LaneSim)
      → IsConserving c t d lane
      → IsConserving c (t + c.dt_s) d (serve_lane c green n lane)
  unfolding serve_lane
  serve_lane-IsConserving green n t d lane i =
      let full = arrive n lane in
      let b : IsBalanced c t d full = record {
        keyed = i.keyed;
        balanced = omega (arith, i.balanced);
        saturated = i.saturated;
      } in
      elim (Bool-cases (has_green green lane.direction)) [
        | inl h ↦ rw h (
            account-IsConserving (t + c.dt_s) d (discharge c full)
              (discharge-IsBalanced t d full b))
        | inr h ↦
            rw h (account-IsConserving (t + c.dt_s) d (hold full) (hold-IsBalanced t d full b))
      ]

  -- An emergency flag changes nothing of this.
  flagged :
      (t : ℕ) (d : Direction) (lane : LaneSim) (b : Bool)
      → IsConserving c t d lane
      → IsConserving c t d (record lane { emergency = b })
  flagged t d lane b i = record {
    keyed = i.keyed;
    balanced = i.balanced;
    peak = i.peak;
    saturated = i.saturated;
  }

  pub clear-AllConserving :
      (t : ℕ) (lanes : Dict Direction LaneSim)
      → AllConserving c t lanes
      → AllConserving c t (clear_emergencies lanes) × (keys (clear_emergencies lanes) ≡ keys lanes)
  unfolding clear_emergencies
  clear-AllConserving t [] a = (tt, refl)
  clear-AllConserving t ((d, lane) ∷ rest) a =
      let (b, k) = clear-AllConserving t rest a.1 in
      ((flagged t d lane false a.0, b), ap (λ ks. d ∷ ks) k)

  pub mark-AllConserving :
      (t now : ℕ) (es : List EmergencyEvent) (lanes : Dict Direction LaneSim)
      → AllListed (keys lanes) es
      → AllConserving c t lanes
      → (lanes' : Dict Direction LaneSim) × (mark_emergencies now es lanes ≡ ok lanes')
        × AllConserving c t lanes'
        × (keys lanes' ≡ keys lanes)
  unfolding mark_emergencies set_emergency
  mark-AllConserving t now [] lanes l a = (lanes, refl, a, refl)
  mark-AllConserving t now (e ∷ es) lanes l a = elim (Bool-cases (active_at e now)) [
    | inl h ↦
        (let (lane, g) = get-listed lanes e.direction l.0 in
          let marked = record lane { emergency = true } in
          let k = keys-set_known lanes e.direction lane marked g in
          let own = AllEntries-get (IsConserving c t) lanes e.direction lane a g in
          let b =
            AllEntries-set (IsConserving c t) lanes e.direction marked a
              (flagged t e.direction lane true own) in
          let rest : AllListed (keys (Dict.set lanes e.direction marked)) es = rw k l.1 in
          let (lanes', m, b', k') =
            mark-AllConserving t now es (Dict.set lanes e.direction marked) rest b in
          (lanes', rw (h, set_emergency, g) m, b', k' ∙ k))
    | inr h ↦
        (let (lanes', m, b', k') = mark-AllConserving t now es lanes l.1 a in
          (lanes', rw h m, b', k'))
  ]

  lane_state-ok : (lane : LaneSim) → check_counts (lane_state c lane) ≡ ok (lane_state c lane)
  unfolding check_counts
  lane_state-ok lane =
      let s = lane_state c lane in
      let p : leb s.occupancy_pct 100000 ≡ true = ground arith in
      let q : nat_beq (s.moving_count + s.stopped_count) s.vehicle_count ≡ true = ground arith in
      rw (p, q)

  pub lane_states-ok :
      (t : ℕ) (lanes : Dict Direction LaneSim)
      → AllConserving c t lanes
      → (states : Dict Direction LaneState) × (lane_states c lanes ≡ ok states)
        × (lanes_consistent states ≡ true)
  unfolding lane_states lanes_consistent
  lane_states-ok t [] a = ([], refl, refl)
  lane_states-ok t ((d, lane) ∷ rest) a =
      let (states, s, k) = lane_states-ok t rest a.1 in
      let same : (lane.direction == d) ≡ true =
        (direction_eq.test_iff lane.direction d).1 a.0.keyed in
      ((d, lane_state c lane) ∷ states, rw (lane_state-ok lane, s), rw (same, k))

  pub new_lanes-AllConserving :
      (demand : Dict Direction LaneDemand)
      → AllConserving c 0 (new_lanes demand) × (keys (new_lanes demand) ≡ keys demand)
  unfolding new_lanes
  new_lanes-AllConserving [] = (tt, refl)
  new_lanes-AllConserving ((d, lane) ∷ rest) =
      let (a, k) = new_lanes-AllConserving rest in
      let own : IsConserving c 0 d (new_lane d lane.arrival_rate_vps) = record {
        keyed = refl;
        balanced = omega arith;
        peak = omega arith;
        saturated = omega arith;
      } in
      ((own, a), ap (λ ks. d ∷ ks) k)
