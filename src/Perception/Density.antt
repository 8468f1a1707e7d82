-- ===== src/Perception/Density.antt =====
-- `DensityEstimator` of libs/sentinel/perception/density.py.
use sentinal_ai_control_room.Prelude.{
  ℕ, ◌-◌, ◌/◌, Bool, true, false, not, ◌||◌, Option, none, some, List, [], ◌∷◌, map, sum, length,
  nat_eq, if◌then◌else◌,
}
use sentinal_ai_control_room.Prelude.Dict
use sentinal_ai_control_room.Prelude.Dict.{Dict}
use sentinal_ai_control_room.Prelude.Results.{Result}
use sentinal_ai_control_room.Contracts.Enums.{
  Direction, VehicleClass, pedestrian, is_vehicle, is_emergency, from_occupancy,
}
use sentinal_ai_control_room.Contracts.Values.{LaneState, check_counts}
use sentinal_ai_control_room.Perception.Geometry.{
  Track, LaneCalibration, centroid, queue_length_m, occupancy_pct,
}
use sentinal_ai_control_room.Perception.Movement.{MovementInfo}

-- `[x for x in xs if p(x)]` and `any(p(x) for x in xs)`.
abbrev pub select {ℓ} : {A : Type ℓ} → (A → Bool) → List A → List A
select p [] = []
select p (x ∷ xs) = if p x then x ∷ select p xs else select p xs

abbrev pub any_of {ℓ} : {A : Type ℓ} → (A → Bool) → List A → Bool
any_of p [] = false
any_of p (x ∷ xs) = p x || any_of p xs

abbrev pub is_pedestrian : VehicleClass → Bool
is_pedestrian pedestrian = true
is_pedestrian _ = false

-- `_is_moving`: a track with no classification counts as moving.
abbrev pub moving_in : Option MovementInfo → Bool
moving_in none = true
moving_in (some info) = info.is_moving

abbrev pub vehicles_of : List Track → List Track
vehicles_of = select (λ (t : Track). is_vehicle t.vehicle_class)

abbrev pub stopped_of : Dict ℕ MovementInfo → List Track → List Track
stopped_of movement = select (λ (t : Track). not (moving_in (Dict.get movement t.track_id)))

-- The comprehension in `_avg_wait`.
unfoldable pub waits : Dict ℕ MovementInfo → List Track → List ℕ
waits movement [] = []
waits movement (t ∷ rest) = elim (Dict.get movement t.track_id) [
  | none ↦ waits movement rest
  | some info ↦ info.stopped_s ∷ waits movement rest
]

abbrev pub mean : ℕ → List ℕ → ℕ
mean default [] = default
mean default (x ∷ xs) = sum (x ∷ xs) / length (x ∷ xs)

-- The state that `estimate` describes, before it is checked.
unfoldable pub described :
    (ℕ → ℕ) → Direction → List Track → Dict ℕ MovementInfo → LaneCalibration → LaneState
unfolding waits queue_length_m
described root direction tracks movement c =
    let vehicles = vehicles_of tracks in
    let stopped = stopped_of movement vehicles in
    let queue = queue_length_m root c (map (λ (t : Track). centroid t.box) stopped) in
    let occupancy = occupancy_pct c queue in
    record {
      direction = direction;
      vehicle_count = length vehicles;
      moving_count = length vehicles - length stopped;
      stopped_count = length stopped;
      queue_length_m = queue;
      avg_wait_s = mean 0 (waits movement stopped);
      occupancy_pct = occupancy;
      density = from_occupancy occupancy;
      has_emergency_vehicle = any_of (λ (t : Track). is_emergency t.vehicle_class) vehicles;
      pedestrian_waiting = any_of (λ (t : Track). is_pedestrian t.vehicle_class) tracks;
    }

unfoldable pub estimate :
    (ℕ → ℕ) → Direction → List Track → Dict ℕ MovementInfo → LaneCalibration → Result LaneState
unfolding described
estimate root direction tracks movement c =
    check_counts (described root direction tracks movement c)
