-- ===== src/Tests/Perception.antt =====
-- Runs of libs/sentinel/perception on small frames.
use sentinal_ai_control_room.Prelude.{
  ℕ, ◌+◌, ◌*◌, ◌≤◌, ◌≡◌, refl, true, false, ◌&&◌, none, some, List, [], ◌∷◌, length, leb, ltb,
  nat_beq, if◌then◌else◌, inl, inr, Bool-cases, All, nat_eq, arith,
}
use sentinal_ai_control_room.Prelude.Dict
use sentinal_ai_control_room.Prelude.Dict.{Dict, keys, listed, AllEntries}
use sentinal_ai_control_room.Prelude.Distinct.{AllDistinct}
use sentinal_ai_control_room.Prelude.Results.{Result, ok, raise, value_error}
use sentinal_ai_control_room.Contracts.Enums.{
  Direction, north, VehicleClass.car, ns_green, ew_green, SignalPhase, ai, direction_eq,
}
use sentinal_ai_control_room.Contracts.Values.{IntersectionState}
use sentinal_ai_control_room.Perception.Geometry.{
  BoundingBox, Detection, Track, IntersectionCalibration, default_calibration, frame_lane, contains,
  speed_ge,
}
use sentinal_ai_control_room.Perception.Tracking
use sentinal_ai_control_room.Perception.Tracking.{
  TrackRecord, IouTracker, Pair, new_tracker, new_record, associate, all_pairs, is_taken,
  unmatched_dets,
}
use sentinal_ai_control_room.Perception.Movement
use sentinal_ai_control_room.Perception.Movement.{MovementAnalyzer, ids}
use sentinal_ai_control_room.Perception.Pipeline.{PerceptionPipeline, for_lanes, process}
use sentinal_ai_control_room.Perception.Worker.{PerceptionWorker, run}
use sentinal_ai_control_room.Perception.Association.{IsMatching, IsTaken, associate-maximal}
use sentinal_ai_control_room.Perception.Candidates.{Holds, IsAt, Overlaps, IsSimilar}
use sentinal_ai_control_room.Perception.Region.{contains-frame}
use sentinal_ai_control_room.Perception.Identity.{IsTracking, update-IsTracking}
use sentinal_ai_control_room.Perception.Hysteresis.{IsAnalyzing, known}
use sentinal_ai_control_room.Perception.Waiting.{IsFrameSeen, update-IsFrameSeen}
use sentinal_ai_control_room.Perception.Stopped.{analyze, stopped-analyze}
use sentinal_ai_control_room.Perception.Estimate.{IsCredible, IsReady, IsReported}
use sentinal_ai_control_room.Perception.Frames.{process-IsReported}
use sentinal_ai_control_room.Perception.Bundles.{IsRunning}
use sentinal_ai_control_room.Perception.Recovery.{count_from_good, limited, run-IsRunning}

abbrev box_at : ℕ → BoundingBox
box_at x = record { x1 = x; y1 = 10_000; x2 = x + 10_000; y2 = 30_000 }

abbrev car_at : ℕ → Detection
car_at x = record { vehicle_class = car; confidence = 900; box = box_at x }

-- Two tracks; a detection over the first, one over both, and one of a new vehicle.
abbrev two_tracks : IouTracker
two_tracks = record (new_tracker 1500) {
  tracks = (1, new_record 1 (car_at 1000)) ∷ (2, new_record 2 (car_at 4000)) ∷ [];
  next_id = 3;
}

abbrev cars : List Detection
cars = car_at 1000 ∷ car_at 3000 ∷ car_at 90_000 ∷ []

two_tracks-IsTracking : IsTracking two_tracks
two_tracks-IsTracking = record {
  kept = (
    record { named = refl; below = omega arith },
    (record { named = refl; below = omega arith }, tt),
  );
  keys_once = (refl, (refl, tt));
}

associate-maximal_example :
    IsMatching (associate two_tracks cars)
    × All (IsSimilar 300 two_tracks.tracks cars) (associate two_tracks cars)
    × ((id k : ℕ) (r : TrackRecord) (det : Detection)
        → Holds two_tracks.tracks id r
        → IsAt k cars det
        → Overlaps 300 r det
        → IsTaken (associate two_tracks cars) id k)
associate-maximal_example = associate-maximal two_tracks cars

update-IsTracking_example :
    IsTracking (Tracking.update two_tracks cars 100 north).0
    × ((Tracking.update two_tracks cars 100 north).0.next_id
        ≡ 3 + length (unmatched_dets (associate two_tracks cars) 0 cars))
    × AllEntries
        (λ id r. listed (keys two_tracks.tracks) id ≡ false → 3 ≤ id)
        (Tracking.update two_tracks cars 100 north).0.tracks
    × AllDistinct (ids (Tracking.update two_tracks cars 100 north).1)
update-IsTracking_example = update-IsTracking two_tracks cars 100 north two_tracks-IsTracking

-- A point on the left edge is outside.
contains-frame_example :
    contains (frame_lane 100 80 50 north).1 (record { x = 0; y = 40 })
    ≡ (ltb 0 0 && leb 0 100 && ltb 40 80)
contains-frame_example = contains-frame 100 80 50 north (record { x = 0; y = 40 })

-- A vehicle that creeps at 2 pixels a second, between the thresholds 1.5 and 3.
abbrev creeping : ℕ → Track
creeping id = record {
  track_id = id;
  vehicle_class = car;
  box = box_at 1000;
  velocity = record { dx = 400; dy = 0; dt = 100 };
  lane = some north;
  is_moving = true;
  age_frames = 3;
}

abbrev stopped_car : MovementAnalyzer
stopped_car = record {
  stop_threshold = 1500;
  resume_threshold = 3000;
  is_moving = (7, false) ∷ (8, true) ∷ [];
  stopped_s = (7, 500) ∷ (8, 0) ∷ [];
}

stopped_car-IsAnalyzing : IsAnalyzing stopped_car
unfolding Dict.get speed_ge
stopped_car-IsAnalyzing = record {
  moving_once = (refl, (refl, tt));
  stopped_once = (refl, (refl, tt));
  classified_first = λ k h. ground arith;
}

update-IsFrameSeen_example :
    IsFrameSeen stopped_car
      (creeping 7 ∷ creeping 9 ∷ [])
      100
      (Movement.update stopped_car (creeping 7 ∷ creeping 9 ∷ []) 100).0
      (Movement.update stopped_car (creeping 7 ∷ creeping 9 ∷ []) 100).1
update-IsFrameSeen_example =
    update-IsFrameSeen stopped_car (creeping 7 ∷ creeping 9 ∷ []) 100 stopped_car-IsAnalyzing
      (refl, (refl, tt))

abbrev two_frames : List (List Track × ℕ)
two_frames = (creeping 7 ∷ creeping 8 ∷ [], 100) ∷ (creeping 7 ∷ [], 200) ∷ []

stopped-analyze_example : known (analyze stopped_car two_frames) 7 ≡ (some false, some 800)
unfolding Dict.get speed_ge
stopped-analyze_example =
    stopped-analyze 7 500 two_frames stopped_car stopped_car-IsAnalyzing refl (
      ((refl, (refl, tt)), refl, (λ e. refl, (λ e. refl, tt))),
      (((refl, tt), refl, (λ e. refl, tt)), tt),
    )

-- The default calibration of a small frame, with a fresh tracker and analyzer for each approach.
abbrev calibration : IntersectionCalibration
calibration = default_calibration "i1" 100 80 50

abbrev pipeline : PerceptionPipeline
pipeline = record {
  calibration = calibration;
  default_dt = 66;
  trackers = for_lanes (new_tracker 1500) calibration.lanes;
  analyzers =
      for_lanes
        (record { stop_threshold = 1500; resume_threshold = 3000; is_moving = []; stopped_s = [] })
        calibration.lanes;
}

pipeline-IsReady : IsReady pipeline
unfolding default_calibration for_lanes
pipeline-IsReady = record {
  serves = ((refl, refl), ((refl, refl), ((refl, refl), ((refl, refl), tt))));
  once = (refl, (refl, (refl, (refl, tt))));
}

-- A toy in place of the square root.
abbrev root : ℕ → ℕ
root n = n

abbrev seen : Dict Direction (List Detection)
seen = (north, cars) ∷ []

process-IsReported_example :
    (p' : PerceptionPipeline) × (state : IntersectionState) × (process root pipeline seen ew_green
        2000 ai none 5
      ≡ (p', ok state))
    × IsReady p'
    × (p'.calibration ≡ calibration)
    × AllEntries IsReported state.lanes
    × (keys state.lanes ≡ keys calibration.lanes)
    × (state.perception_confidence ≤ 1000)
    × (state.current_phase ≡ ew_green)
    × (state.phase_elapsed_s ≡ 2000)
process-IsReported_example =
    process-IsReported root pipeline seen ew_green 2000 ai none 5 pipeline-IsReady
      ((omega arith, (omega arith, (omega arith, tt))), tt)

-- Frames are numbers: a detector that fails on 0, and sees a car at any other.
abbrev detect : ℕ → Result (List Detection)
detect n = if nat_beq n 0 then raise value_error else ok (car_at n ∷ [])

abbrev signal : ℕ → SignalPhase × ℕ
signal index = (ns_green, 1000 * index)

abbrev clock : ℕ → ℕ
clock index = 100 * index

detect-IsCredible :
    (frame : ℕ) (found : List Detection) → detect frame ≡ ok found → IsCredible found
detect-IsCredible frame found h = elim (Bool-cases (nat_beq frame 0)) [
  | inl e ↦ (let f : raise value_error ≡ ok found = rw e at h in absurd (cc))
  | inr e ↦
      (let f : ok (car_at frame ∷ []) ≡ ok found = rw e at h in
        let g : car_at frame ∷ [] ≡ found = cc in rw (← g) (omega arith, tt))
]

abbrev worker : PerceptionWorker
worker = record { pipeline = pipeline; last_state = none; published = [] }

abbrev bundles : List (Dict Direction ℕ)
bundles = ((north, 0) ∷ []) ∷ ((north, 1000) ∷ []) ∷ ((north, 0) ∷ []) ∷ []

run-IsRunning_example :
    (w' : PerceptionWorker) × (processed : ℕ) × (run root detect signal clock worker
        (some 3)
        bundles
      ≡ (w', processed))
    × IsRunning calibration w'
    × (processed ≡ count_from_good root detect signal clock false (limited (some 3) 0 bundles))
    × (length w'.published ≡ 0 + processed)
run-IsRunning_example =
    run-IsRunning root detect signal clock detect-IsCredible calibration (some 3) bundles worker
      (record { calibrated = refl; ready = pipeline-IsReady; last = tt; published = tt })
