-- ===== src/Simulation/Traffic.antt =====
-- What the twin of libs/sentinel/simulation/analytical.py does with its vehicles.
use sentinal_ai_control_room.Prelude.{
  ℕ, ◌+◌, ◌*◌, ◌≡◌, refl, ap, ◌∙◌, Option, List, [], ◌∷◌, length, arith,
}
use native.Mathlib.Nat.{suc-mul}
use sentinal_ai_control_room.Prelude.Dict.{Dict, keys}
use sentinal_ai_control_room.Prelude.Results.{Result, ok, ◌>>=◌}
use sentinal_ai_control_room.Contracts.Enums.{Axis, Direction, direction_eq}
use sentinal_ai_control_room.Contracts.Values.{IntersectionState, SignalCommand}
use sentinal_ai_control_room.Simulation.Scenario.{SimConfig}
use sentinal_ai_control_room.Simulation.Twin.{
  LaneSim, Environment, clear_emergencies, update_emergencies, observe, fresh, green_axis,
  advance_lanes, snapshot, moved, move, step,
}
use sentinal_ai_control_room.Simulation.Lanes.{
  AllConserving, AllListed, serve_lane-IsConserving, clear-AllConserving, mark-AllConserving,
  lane_states-ok, new_lanes-AllConserving,
}

module _ {R : Type 0} (poisson : R → ℕ → ℕ × R) (seed : ℕ → R) (c : SimConfig) where
  advance-AllConserving :
      (green : Option Axis) (t : ℕ) (rng : R) (lanes : Dict Direction LaneSim)
      → AllConserving c t lanes
      → AllConserving c (t + c.dt_s) (advance_lanes poisson seed c green rng lanes).0
        × (keys (advance_lanes poisson seed c green rng lanes).0 ≡ keys lanes)
  unfolding advance_lanes
  advance-AllConserving green t rng [] a = (tt, refl)
  advance-AllConserving green t rng ((d, lane) ∷ rest) a =
      let (n, rng') = poisson rng (lane.arrival_rate_vps * c.dt_s) in
      let (b, k) = advance-AllConserving green t rng' rest a.1 in
      ((serve_lane-IsConserving c green n t d lane a.0, b), ap (λ ks. d ∷ ks) k)

  -- An environment of this scenario, at the time that it shows.
  pub record IsRunning (e : Environment R) : Type 0 where
    pub lanes_ok : AllConserving c e.time e.lanes
    pub approaches : keys e.lanes ≡ keys c.demand

  pub observe-ok :
      (e : Environment R)
      → IsRunning e
      → (state : IntersectionState) × (observe poisson seed c e ≡ ok state)
  unfolding observe
  observe-ok e i =
      let (states, s, k) = lane_states-ok c e.time e.lanes i.lanes_ok in
      (snapshot poisson seed c e states, rw (s, k))

  pub fresh-IsRunning : IsRunning (fresh poisson seed c)
  unfolding fresh
  fresh-IsRunning =
      let (a, k) = new_lanes-AllConserving c c.demand in record { lanes_ok = a; approaches = k }

  move-IsRunning :
      (e : Environment R) (command : SignalCommand)
      → AllListed (keys c.demand) c.emergencies
      → IsRunning e
      → (e' : Environment R) × (move poisson seed c e command ≡ ok e')
        × IsRunning e'
        × (e'.time ≡ e.time + c.dt_s)
  unfolding move update_emergencies
  move-IsRunning e command l i =
      let (cleared, k) = clear-AllConserving c e.time e.lanes i.lanes_ok in
      let listed : AllListed (keys (clear_emergencies e.lanes)) c.emergencies =
        rw (k, i.approaches) l in
      let (lanes, m, a, k') =
        mark-AllConserving c e.time e.time c.emergencies (clear_emergencies e.lanes) listed
          cleared in
      let phase = command.target_phase in
      let (b, k'') = advance-AllConserving (green_axis phase) e.time e.rng lanes a in
      (
        moved poisson seed c e phase lanes,
        rw m,
        record { lanes_ok = b; approaches = k'' ∙ k' ∙ k ∙ i.approaches },
        refl,
      )

  pub step-IsRunning :
      (e : Environment R) (command : SignalCommand)
      → AllListed (keys c.demand) c.emergencies
      → IsRunning e
      → (e' : Environment R) × (state : IntersectionState) × (step poisson seed c e command
          ≡ ok (e', state))
        × IsRunning e'
        × (e'.time ≡ e.time + c.dt_s)
  unfolding step
  step-IsRunning e command l i =
      let (e', m, j, t) = move-IsRunning e command l i in
      let (state, o) = observe-ok e' j in (e', state, rw (m, o), j, t)

  -- The commands, one a tick.
  unfoldable pub play : Environment R → List SignalCommand → Result (Environment R)
  play e [] = ok e
  play e (command ∷ rest) = do (e', state) ← step poisson seed c e command; play e' rest

  play-IsRunning :
      (e : Environment R) (commands : List SignalCommand)
      → AllListed (keys c.demand) c.emergencies
      → IsRunning e
      → (e' : Environment R) × (play e commands ≡ ok e')
        × IsRunning e'
        × (e'.time ≡ e.time + length commands * c.dt_s)
  unfolding play
  play-IsRunning e [] l i = (e, refl, i, omega arith)
  play-IsRunning e (command ∷ rest) l i =
      let (e', state, s, j, t) = step-IsRunning e command l i in
      let (e'', p, k, u) = play-IsRunning e' rest l j in
      let n = suc-mul (length rest) c.dt_s in (e'', rw s p, k, omega (arith, t, u, n))

  -- No vehicle is lost and none is served twice. If every emergency is on an approach of the
  -- scenario, the twin takes any commands from its reset on without an exception, and after them,
  -- on each approach: the vehicles that arrived are those served and those in the queue, the queue
  -- is within the recorded maximum, and the vehicles served are within what the saturation flow
  -- lets through in the simulated time, whatever arrives.
  pub play-AllConserving :
      (commands : List SignalCommand)
      → AllListed (keys c.demand) c.emergencies
      → (e : Environment R) × (play (fresh poisson seed c) commands ≡ ok e)
        × AllConserving c (length commands * c.dt_s) e.lanes
        × (keys e.lanes ≡ keys c.demand)
  unfolding fresh
  play-AllConserving commands l =
      let (e, p, i, t) = play-IsRunning (fresh poisson seed c) commands l fresh-IsRunning in
      let t' : e.time ≡ length commands * c.dt_s = omega (arith, t) in
      (e, p, rw (← t') i.lanes_ok, i.approaches)
