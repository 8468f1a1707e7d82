-- ===== src/Perception/Worker.antt =====
-- `PerceptionWorker` of libs/sentinel/perception/worker.py. A frame is a value of an abstract type;
-- the detector answers for one with its detections or an exception. The signal provider and the
-- clock are functions of the number of the frame. Metering is left out.
use sentinal_ai_control_room.Prelude.{
  ℕ, ◌+◌, Bool, false, Option, none, some, List, [], ◌∷◌, ◌++◌, leb, if◌then◌else◌,
}
use sentinal_ai_control_room.Prelude.Dict.{Dict}
use sentinal_ai_control_room.Prelude.Results.{Result, ok, raise, ◌>>=◌}
use sentinal_ai_control_room.Contracts.Enums.{Direction, SignalPhase, ai}
use sentinal_ai_control_room.Contracts.Values.{IntersectionState}
use sentinal_ai_control_room.Perception.Geometry.{Detection}
use sentinal_ai_control_room.Perception.Pipeline.{PerceptionPipeline, process}

pub record PerceptionWorker : Type 0 where
  pub pipeline : PerceptionPipeline
  pub last_state : Option IntersectionState
  pub published : List IntersectionState

module _ {Frame : Type 0} (root : ℕ → ℕ) (detect : Frame → Result (List Detection))
    (signal : ℕ → SignalPhase × ℕ) (clock : ℕ → ℕ) where
  -- `{d: self._detector.detect(frame) for d, frame in bundle.items()}`
  unfoldable pub detect_all : Dict Direction Frame → Result (Dict Direction (List Detection))
  detect_all [] = ok []
  detect_all ((d, frame) ∷ rest) = do
    found ← detect frame
    more ← detect_all rest
    ok ((d, found) ∷ more)

  -- The body of the `try`: the pipeline as it leaves it, and its outcome.
  unfoldable pub attempt :
      PerceptionWorker → ℕ → Dict Direction Frame → PerceptionPipeline × Result IntersectionState
  unfolding detect_all
  attempt w index bundle =
      let (phase, elapsed) = signal index in
      elim (detect_all bundle) [
        | raise exception ↦ (w.pipeline, raise exception)
        | ok found ↦ process root w.pipeline found phase elapsed ai none (clock index)
      ]

  -- What `_process_bundle` makes of its outcome: the state to publish, if there is one.
  abbrev pub recover :
      PerceptionWorker
      → PerceptionPipeline × Result IntersectionState
      → PerceptionWorker × Option IntersectionState
  recover w (pipeline, ok state) =
      (record w { pipeline = pipeline; last_state = some state }, some state)
  recover w (pipeline, raise exception) = (record w { pipeline = pipeline }, w.last_state)

  unfoldable pub process_bundle :
      PerceptionWorker → ℕ → Dict Direction Frame → PerceptionWorker × Option IntersectionState
  unfolding attempt
  process_bundle w index bundle = recover w (attempt w index bundle)

  abbrev pub publish : PerceptionWorker → Option IntersectionState → ℕ → PerceptionWorker × ℕ
  publish w none processed = (w, processed)
  publish w (some state) processed =
      (record w { published = w.published ++ state ∷ [] }, processed + 1)

  abbrev pub is_over : Option ℕ → ℕ → Bool
  is_over none index = false
  is_over (some max_frames) index = leb max_frames index

  -- The loop of `run`, from a frame's number on.
  unfoldable pub run_from :
      Option ℕ → ℕ → List (Dict Direction Frame) → PerceptionWorker → ℕ → PerceptionWorker × ℕ
  unfolding process_bundle
  run_from max_frames index [] w processed = (w, processed)
  run_from max_frames index (bundle ∷ rest) w processed =
      let (w', state) = process_bundle w index bundle in
      let (w'', processed') = publish w' state processed in
      let more = run_from max_frames (index + 1) rest w'' processed' in
      if is_over max_frames index then (w, processed) else more

  unfoldable pub run :
      PerceptionWorker → Option ℕ → List (Dict Direction Frame) → PerceptionWorker × ℕ
  unfolding run_from
  run w max_frames frames = run_from max_frames 0 frames w 0
