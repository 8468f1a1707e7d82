-- ===== src/Perception/Frames.antt =====
-- Whole frames of `PerceptionPipeline` of libs/sentinel/perception/pipeline.py.
use sentinal_ai_control_room.Prelude.{
  ℕ, ◌*◌, ◌≤◌, ◌≡◌, refl, sym, ap, ◌∙◌, true, false, Option, none, some, List, [], ◌∷◌, ◌++◌, leb,
  All, All-append, append-nil, append-append, arith,
}
use sentinal_ai_control_room.Prelude.Dict
use sentinal_ai_control_room.Prelude.Dict.{Dict, keys, listed, AllEntries, AllEntries-set}
use sentinal_ai_control_room.Prelude.Distinct.{AllDistinct, keys-set_new}
use sentinal_ai_control_room.Prelude.Results.{Result, ok, raise}
use sentinal_ai_control_room.Contracts.Enums.{Direction, SignalPhase, SystemMode, direction_eq}
use sentinal_ai_control_room.Contracts.Values.{LaneState, IntersectionState, lanes_consistent}
use sentinal_ai_control_room.Perception.Geometry.{
  Detection, LaneCalibration, IntersectionCalibration,
}
use sentinal_ai_control_room.Perception.Tracking
use sentinal_ai_control_room.Perception.Movement
use sentinal_ai_control_room.Perception.Movement.{MovementAnalyzer}
use sentinal_ai_control_room.Perception.Density.{mean}
use sentinal_ai_control_room.Perception.Pipeline.{
  PerceptionPipeline, for_lanes, init, kept_of, confidences_of, process_lane, process_lanes,
  process,
}
use sentinal_ai_control_room.Perception.Estimate.{
  IsCredible, IsReported, IsReady, Serves, IsSame, Serves-same, apart, still_new, mean-bound,
  confidences-bound, kept-IsCredible, process_lane-reports,
}

-- What the accumulators of the loop in `process` end up as.
record IsFrame (cs : Dict Direction LaneCalibration) (seen : List Direction)
    (p p' : PerceptionPipeline) (lanes : Dict Direction LaneState) (confidences : List ℕ)
    : Type 0 where
  same : IsSame p p'
  reported : AllEntries IsReported lanes
  listed_all : keys lanes ≡ seen ++ keys cs
  credible : All (λ x. x ≤ 1000) confidences

IsSame-trans : (p q r : PerceptionPipeline) → IsSame p q → IsSame q r → IsSame p r
IsSame-trans p q r a b = record {
  calibration = b.calibration ∙ a.calibration;
  trackers = b.trackers ∙ a.trackers;
  analyzers = b.analyzers ∙ a.analyzers;
}

module _ (root : ℕ → ℕ) (found : Dict Direction (List Detection)) (dt : ℕ) where
  process_lanes-next :
      (d : Direction) (calib : LaneCalibration) (rest : Dict Direction LaneCalibration)
      (p p1 : PerceptionPipeline) (lanes : Dict Direction LaneState) (lane : LaneState)
      (confidences : List ℕ)
      → process_lane root p d calib (kept_of found d calib) dt ≡ (p1, ok lane)
      → process_lanes root found dt ((d, calib) ∷ rest) p lanes confidences
        ≡ process_lanes root found dt rest p1
            (Dict.set lanes d lane)
            (confidences ++ confidences_of (kept_of found d calib))
  unfolding process_lanes
  process_lanes-next d calib rest p p1 lanes lane confidences e =
      let next : PerceptionPipeline × Result LaneState
          → PerceptionPipeline × Result (Dict Direction LaneState × List ℕ) =
        λ (out : PerceptionPipeline × Result LaneState). elim out.1 [
          | raise e ↦ (out.0, raise e)
          | ok l ↦
              process_lanes root found dt rest out.0 (Dict.set lanes d l)
                (confidences ++ confidences_of (kept_of found d calib))
        ] in
      ap next e

  process_lanes-IsFrame :
      AllEntries (λ d. IsCredible) found
      → (cs : Dict Direction LaneCalibration) (p : PerceptionPipeline)
        (lanes : Dict Direction LaneState) (confidences : List ℕ)
      → Serves p (keys cs)
      → AllDistinct (keys cs)
      → All (λ j. listed (keys lanes) j ≡ false) (keys cs)
      → AllEntries IsReported lanes
      → All (λ x. x ≤ 1000) confidences
      → (p' : PerceptionPipeline) × (lanes' : Dict Direction LaneState) × (confidences' : List ℕ)
        × (process_lanes root found dt cs p lanes confidences ≡ (p', ok (lanes', confidences')))
        × IsFrame cs (keys lanes) p p' lanes' confidences'
  unfolding process_lanes
  process_lanes-IsFrame f [] p lanes confidences s o new r c = (
    p,
    lanes,
    confidences,
    refl,
    record {
      same = record { calibration = refl; trackers = refl; analyzers = refl };
      reported = r;
      listed_all = sym (append-nil (keys lanes));
      credible = c;
    },
  )
  process_lanes-IsFrame f ((d, calib) ∷ rest) p lanes confidences s o new r c =
      let kept = kept_of found d calib in
      let more = confidences_of kept in
      let (p1, lane, e, same, own) = process_lane-reports root p d calib kept dt s.0.0 s.0.1 in
      let grown = keys-set_new lanes d lane new.0 in
      let (p', lanes', confidences', e', frame) =
        process_lanes-IsFrame f rest p1 (Dict.set lanes d lane) (confidences ++ more)
          (Serves-same p p1 (keys rest) same s.1) o.1
          (rw grown (still_new (keys lanes) (keys rest) d new.1 (apart d (keys rest) o.0)))
          (AllEntries-set IsReported lanes d lane r own)
          (All-append (λ x. x ≤ 1000) confidences more c
            (confidences-bound kept (kept-IsCredible found d calib f))) in
      (
        p',
        lanes',
        confidences',
        process_lanes-next d calib rest p p1 lanes lane confidences e ∙ e',
        record {
          same = IsSame-trans p p1 p' same frame.same;
          reported = frame.reported;
          listed_all =
              frame.listed_all
              ∙ ap (λ ks. ks ++ keys rest) grown
              ∙ sym (append-append (keys lanes) (d ∷ []) (keys rest));
          credible = frame.credible;
        },
      )

reported-consistent :
    (lanes : Dict Direction LaneState) → AllEntries IsReported lanes → lanes_consistent lanes ≡ true
unfolding lanes_consistent
reported-consistent [] r = refl
reported-consistent ((d, lane) ∷ lanes) r =
    ground (arith, r.0.0, direction_eq.test_iff lane.direction d, reported-consistent lanes r.1)

all_new : (ds : List Direction) → All (λ j. listed [] j ≡ false) ds
all_new [] = tt
all_new (d ∷ ds) = (refl, all_new ds)

IsReady-same : (p p' : PerceptionPipeline) → IsSame p p' → IsReady p → IsReady p'
IsReady-same p p' s r =
    let same = ap (λ (c : IntersectionCalibration). keys c.lanes) s.calibration in
    record {
      serves = rw same (Serves-same p p' (keys p.calibration.lanes) s r.serves);
      once = rw same r.once;
    }

-- Whatever its detectors see, a pipeline with a tracker and an analyzer for every approach does not
-- raise on a frame, if the detections' confidences are at most 1: it returns a state with one lane
-- for each calibrated approach, in their order, each lane reporting its own approach with vehicle
-- counts that add up and an occupancy of at most 100 percent, with a confidence of at most 1 and with
-- the phase and the time that it was given. The pipeline stays ready for the next frame.
pub process-IsReported :
    (root : ℕ → ℕ) (p : PerceptionPipeline) (found : Dict Direction (List Detection))
    (phase : SignalPhase) (elapsed : ℕ) (mode : SystemMode) (dt : Option ℕ) (now : ℕ)
    → IsReady p
    → AllEntries (λ d. IsCredible) found
    → (p' : PerceptionPipeline) × (state : IntersectionState) × (process root p found phase elapsed
          mode dt now
        ≡ (p', ok state))
      × IsReady p'
      × (p'.calibration ≡ p.calibration)
      × AllEntries IsReported state.lanes
      × (keys state.lanes ≡ keys p.calibration.lanes)
      × (state.perception_confidence ≤ 1000)
      × (state.current_phase ≡ phase)
      × (state.phase_elapsed_s ≡ elapsed)
unfolding process
process-IsReported root p found phase elapsed mode dt now r f =
    let step_dt : ℕ = elim dt [ none ↦ p.default_dt | some t ↦ t ] in
    let cs = p.calibration.lanes in
    let (p', lanes, confidences, e, frame) =
      process_lanes-IsFrame root found step_dt f cs p [] [] r.serves r.once (all_new (keys cs)) tt
        tt in
    let mean_ok = mean-bound confidences frame.credible in
    let test : leb (mean 1000 confidences) 1000 ≡ true = ground arith in
    (
      p',
      record {
        intersection_id = p.calibration.intersection_id;
        timestamp = now;
        lanes = lanes;
        current_phase = phase;
        phase_elapsed_s = elapsed;
        mode = mode;
        perception_confidence = mean 1000 confidences;
      },
      rw (e, reported-consistent lanes frame.reported, test) refl,
      IsReady-same p p' frame.same r,
      frame.same.calibration,
      frame.reported,
      frame.listed_all,
      mean_ok,
      refl,
      refl,
    )

keys-for_lanes {ℓ} :
    {A : Type ℓ} (a : A) (cs : Dict Direction LaneCalibration) → keys (for_lanes a cs) ≡ keys cs
unfolding for_lanes
keys-for_lanes a [] = refl
keys-for_lanes a ((d, c) ∷ cs) = ap (λ ks. d ∷ ks) (keys-for_lanes a cs)

listed-all :
    (ds es : List Direction)
    → ((j : Direction) → listed ds j ≡ true → listed es j ≡ true)
    → All (λ d. (listed es d ≡ true) × (listed es d ≡ true)) ds
listed-all [] es h = tt
listed-all (d ∷ ds) es h =
    let own = h d (ground (arith, direction_eq.test_iff d d)) in
    ((own, own), listed-all ds es (λ j l. h j (ground (arith, l))))

pub init-IsReady :
    (c : IntersectionCalibration) (fps threshold : ℕ)
    → AllDistinct (keys c.lanes)
    → (p : PerceptionPipeline) × (init c fps threshold ≡ ok p) × IsReady p × (p.calibration ≡ c)
unfolding init Movement.init
init-IsReady c fps threshold o =
    let t = keys-for_lanes (Tracking.new_tracker threshold) c.lanes in
    let analyzer : MovementAnalyzer = record {
      stop_threshold = threshold;
      resume_threshold = threshold * 2;
      is_moving = [];
      stopped_s = [];
    } in
    let a = keys-for_lanes analyzer c.lanes in
    (
      _,
      refl,
      record { serves = rw (t, a) (listed-all (keys c.lanes) (keys c.lanes) (λ j l. l)); once = o },
      refl,
    )
