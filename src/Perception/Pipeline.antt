-- ===== src/Perception/Pipeline.antt =====
-- `PerceptionPipeline` of libs/sentinel/perception/pipeline.py, with its default trackers and
-- analyzers. The gauge of active tracks is left out. `now` is the time that the snapshot is given.
use sentinal_ai_control_room.Prelude.{
  ℕ, Option, none, some, List, [], ◌∷◌, ◌++◌, String, map, leb, ◌&&◌, if◌then◌else◌, ◌/◌,
}
use sentinal_ai_control_room.Prelude.Dict
use sentinal_ai_control_room.Prelude.Dict.{Dict}
use sentinal_ai_control_room.Prelude.Results.{Result, ok, raise, value_error, key_error, ◌>>=◌}
use sentinal_ai_control_room.Contracts.Enums.{Direction, SignalPhase, SystemMode, direction_eq}
use sentinal_ai_control_room.Contracts.Values.{LaneState, IntersectionState, lanes_consistent}
use sentinal_ai_control_room.Perception.Geometry.{
  Detection, LaneCalibration, IntersectionCalibration, centroid, contains,
}
use sentinal_ai_control_room.Perception.Tracking
use sentinal_ai_control_room.Perception.Tracking.{IouTracker}
use sentinal_ai_control_room.Perception.Movement
use sentinal_ai_control_room.Perception.Movement.{MovementAnalyzer}
use sentinal_ai_control_room.Perception.Density.{select, mean, estimate}

pub record PerceptionPipeline : Type 0 where
  pub calibration : IntersectionCalibration
  pub default_dt : ℕ
  pub trackers : Dict Direction IouTracker
  pub analyzers : Dict Direction MovementAnalyzer

-- The comprehensions of `__init__` and the loops of `reset`.
unfoldable pub for_lanes {ℓ} : {A : Type ℓ} → A → Dict Direction LaneCalibration → Dict Direction A
for_lanes a [] = []
for_lanes a ((d, c) ∷ rest) = (d, a) ∷ for_lanes a rest

unfoldable pub reset_all {ℓ} : {A : Type ℓ} → (A → A) → Dict Direction A → Dict Direction A
reset_all f [] = []
reset_all f ((d, a) ∷ rest) = (d, f a) ∷ reset_all f rest

-- `1.0 / target_fps`, in thousandths of a second, of frames in thousandths.
unfoldable pub init : IntersectionCalibration → ℕ → ℕ → Result PerceptionPipeline
unfolding for_lanes Movement.init
init calibration target_fps stopped_speed_threshold = do
  analyzer ← Movement.init stopped_speed_threshold none
  ok (record {
    calibration = calibration;
    default_dt = 1_000_000 / target_fps;
    trackers = for_lanes (Tracking.new_tracker stopped_speed_threshold) calibration.lanes;
    analyzers = for_lanes analyzer calibration.lanes;
  })

unfoldable pub reset : PerceptionPipeline → PerceptionPipeline
unfolding reset_all
reset p = record p {
  trackers = reset_all Tracking.reset p.trackers;
  analyzers = reset_all Movement.reset p.analyzers;
}

-- `detections_by_direction.get(direction, [])`, filtered by `_filter_roi`.
abbrev pub kept_of : Dict Direction (List Detection) → Direction → LaneCalibration → List Detection
kept_of found d calib =
    select (λ (x : Detection). contains calib (centroid x.box))
      (elim (Dict.get found d) [ none ↦ [] | some xs ↦ xs ])

abbrev pub confidences_of : List Detection → List ℕ
confidences_of = map (λ (x : Detection). x.confidence)

module _ (root : ℕ → ℕ) where
  -- The body of the loop in `process`, less the accumulators. What it has changed stays changed when
  -- it raises.
  unfoldable pub process_lane :
      PerceptionPipeline
      → Direction
      → LaneCalibration
      → List Detection
      → ℕ
      → PerceptionPipeline × Result LaneState
  process_lane p d calib kept dt = elim (Dict.get p.trackers d) [
    | none ↦ (p, raise key_error)
    | some tracker ↦
        let (tracker', tracks) = Tracking.update tracker kept dt d in
        let tracked = record p { trackers = Dict.set p.trackers d tracker' } in
        elim (Dict.get p.analyzers d) [
          | none ↦ (tracked, raise key_error)
          | some analyzer ↦
              let (analyzer', movement) = Movement.update analyzer tracks dt in
              (
                record tracked { analyzers = Dict.set p.analyzers d analyzer' },
                estimate root d tracks movement calib,
              )
        ]
  ]

  unfoldable pub process_lanes :
      Dict Direction (List Detection)
      → ℕ
      → Dict Direction LaneCalibration
      → PerceptionPipeline
      → Dict Direction LaneState
      → List ℕ
      → PerceptionPipeline × Result (Dict Direction LaneState × List ℕ)
  unfolding process_lane
  process_lanes found dt [] p lanes confidences = (p, ok (lanes, confidences))
  process_lanes found dt ((d, calib) ∷ rest) p lanes confidences =
      let kept = kept_of found d calib in
      let (p', outcome) = process_lane p d calib kept dt in
      elim outcome [
        | raise e ↦ (p', raise e)
        | ok lane ↦
            process_lanes found dt rest p' (Dict.set lanes d lane)
              (confidences ++ confidences_of kept)
      ]

  -- Building the state, with its validators.
  abbrev pub assemble :
      String
      → SignalPhase
      → ℕ
      → SystemMode
      → ℕ
      → Dict Direction LaneState × List ℕ
      → Result IntersectionState
  assemble id signal_phase phase_elapsed_s mode now (lanes, confidences) =
      if lanes_consistent lanes && leb (mean 1000 confidences) 1000
      then ok (record {
        intersection_id = id;
        timestamp = now;
        lanes = lanes;
        current_phase = signal_phase;
        phase_elapsed_s = phase_elapsed_s;
        mode = mode;
        perception_confidence = mean 1000 confidences;
      })
      else raise value_error

  unfoldable pub process :
      PerceptionPipeline
      → Dict Direction (List Detection)
      → SignalPhase
      → ℕ
      → SystemMode
      → Option ℕ
      → ℕ
      → PerceptionPipeline × Result IntersectionState
  unfolding process_lanes
  process p found signal_phase phase_elapsed_s mode dt now =
      let step_dt : ℕ = elim dt [ none ↦ p.default_dt | some t ↦ t ] in
      let (p', outcome) = process_lanes found step_dt p.calibration.lanes p [] [] in
      (p', outcome >>= assemble p.calibration.intersection_id signal_phase phase_elapsed_s mode now)
