-- ===== src/Perception/Bundles.antt =====
-- One bundle of frames at `PerceptionWorker` of libs/sentinel/perception/worker.py.
use sentinal_ai_control_room.Prelude.{
  ℕ, ◌+◌, ◌≤◌, ◌≡◌, refl, ap, ◌∙◌, Bool, true, false, ◌||◌, Option, none, some, List, [], ◌∷◌, ◌++◌,
  length, length-append, All, All-append, if◌then◌else◌, arith,
}
use sentinal_ai_control_room.Prelude.Dict.{Dict, keys, AllEntries}
use sentinal_ai_control_room.Prelude.Results.{Result, ok, raise, ◌>>=◌, >>=-eq-ok}
use sentinal_ai_control_room.Contracts.Enums.{Direction, SignalPhase, ai}
use sentinal_ai_control_room.Contracts.Values.{IntersectionState}
use sentinal_ai_control_room.Perception.Geometry.{Detection, IntersectionCalibration}
use sentinal_ai_control_room.Perception.Worker.{
  PerceptionWorker, detect_all, attempt, process_bundle, publish,
}
use sentinal_ai_control_room.Perception.Estimate.{IsCredible, IsReported, IsReady}
use sentinal_ai_control_room.Perception.Frames.{process-IsReported}

-- What is expected of a state of a calibrated intersection.
pub record IsSound (c : IntersectionCalibration) (state : IntersectionState) : Type 0 where
  pub complete : keys state.lanes ≡ keys c.lanes
  pub reported : AllEntries IsReported state.lanes
  pub confident : state.perception_confidence ≤ 1000

abbrev pub LastIsSound : IntersectionCalibration → Option IntersectionState → Type 0
LastIsSound c none = Unit
LastIsSound c (some state) = IsSound c state

pub record IsRunning (c : IntersectionCalibration) (w : PerceptionWorker) : Type 0 where
  pub calibrated : w.pipeline.calibration ≡ c
  pub ready : IsReady w.pipeline
  pub last : LastIsSound c w.last_state
  pub published : All (IsSound c) w.published

abbrev pub is_some {ℓ} : {A : Type ℓ} → Option A → Bool
is_some none = false
is_some (some a) = true

abbrev pub returns {ℓ} : {A : Type ℓ} → Result A → Bool
returns (raise e) = false
returns (ok a) = true

module _ {Frame : Type 0} (root : ℕ → ℕ) (detect : Frame → Result (List Detection))
    (signal : ℕ → SignalPhase × ℕ) (clock : ℕ → ℕ) where
  detect_all-IsCredible :
      ((frame : Frame) (found : List Detection) → detect frame ≡ ok found → IsCredible found)
      → (bundle : Dict Direction Frame) (all : Dict Direction (List Detection))
      → detect_all root detect signal clock bundle ≡ ok all
      → AllEntries (λ d. IsCredible) all
  unfolding detect_all
  detect_all-IsCredible credible [] all h = (let e : [] ≡ all = cc in rw (← e) tt)
  detect_all-IsCredible credible ((d, frame) ∷ rest) all h =
      let (found, f, h') =
        >>=-eq-ok (detect frame)
          (λ found. detect_all root detect signal clock rest >>= (λ more. ok ((d, found) ∷ more)))
          h in
      let (more, m, h'') =
        >>=-eq-ok (detect_all root detect signal clock rest) (λ more. ok ((d, found) ∷ more)) h' in
      let e : ((d, found) ∷ more) ≡ all = cc in
      rw (← e) (credible frame found f, detect_all-IsCredible credible rest more m)

  module _
      (credible : (frame : Frame) (found : List Detection)
        → detect frame ≡ ok found
        → IsCredible found)
      (c : IntersectionCalibration) where
    -- What is published for a bundle is the last state that it leaves, and there is one as soon as
    -- there was one or the detector answers.
    process_bundle-IsRunning :
        (w : PerceptionWorker) (index : ℕ) (bundle : Dict Direction Frame)
        → IsRunning c w
        → (w' : PerceptionWorker) × (process_bundle root detect signal clock w index bundle
            ≡ (w', w'.last_state))
          × IsRunning c w'
          × (w'.published ≡ w.published)
          × (is_some w'.last_state
              ≡ (is_some w.last_state || returns (detect_all root detect signal clock bundle)))
    unfolding process_bundle attempt
    process_bundle-IsRunning w index bundle i = go (detect_all root detect signal clock bundle) refl
      where
        go :
            (outcome : Result (Dict Direction (List Detection)))
            → detect_all root detect signal clock bundle ≡ outcome
            → (w' : PerceptionWorker) × (process_bundle root detect signal clock w index bundle
                ≡ (w', w'.last_state))
              × IsRunning c w'
              × (w'.published ≡ w.published)
              × (is_some w'.last_state ≡ (is_some w.last_state || returns outcome))
        go (raise e) h = (w, rw (process_bundle, attempt, h) refl, i, refl, ground arith)
        go (ok found) h =
            let (phase, elapsed) = signal index in
            let (p', state, e, ready, same, reported, complete, confident, _, _) =
              process-IsReported root w.pipeline found phase elapsed ai none (clock index) i.ready
                (detect_all-IsCredible credible bundle found h) in
            let sound : IsSound c state = record {
              complete = complete ∙ ap (λ (k : IntersectionCalibration). keys k.lanes) i.calibrated;
              reported = reported;
              confident = confident;
            } in
            (
              record w { pipeline = p'; last_state = some state },
              rw (process_bundle, attempt, h, e) refl,
              record {
                calibrated = same ∙ i.calibrated;
                ready = ready;
                last = sound;
                published = i.published;
              },
              refl,
              ground arith,
            )

    -- One turn of the loop: at most one state more is published.
    pub turn-IsRunning :
        (w : PerceptionWorker) (index n : ℕ) (bundle : Dict Direction Frame)
        → IsRunning c w
        → (w' : PerceptionWorker) × (n' : ℕ) × (publish root detect signal clock
              (process_bundle root detect signal clock w index bundle).0
              (process_bundle root detect signal clock w index bundle).1
              n
            ≡ (w', n'))
          × IsRunning c w'
          × (is_some w'.last_state
              ≡ (is_some w.last_state || returns (detect_all root detect signal clock bundle)))
          × (n' ≡ n + (if is_some w'.last_state then 1 else 0))
          × (length w'.published ≡ length w.published + (if is_some w'.last_state then 1 else 0))
    turn-IsRunning w index n bundle i =
        let (w', e, i', same, last) = process_bundle-IsRunning w index bundle i in
        go w' w'.last_state refl e i' same last
      where
        go :
            (w' : PerceptionWorker) (l : Option IntersectionState)
            → w'.last_state ≡ l
            → process_bundle root detect signal clock w index bundle ≡ (w', w'.last_state)
            → IsRunning c w'
            → w'.published ≡ w.published
            → is_some w'.last_state
              ≡ (is_some w.last_state || returns (detect_all root detect signal clock bundle))
            → (w'' : PerceptionWorker) × (n' : ℕ) × (publish root detect signal clock
                  (process_bundle root detect signal clock w index bundle).0
                  (process_bundle root detect signal clock w index bundle).1
                  n
                ≡ (w'', n'))
              × IsRunning c w''
              × (is_some w''.last_state
                  ≡ (is_some w.last_state || returns (detect_all root detect signal clock bundle)))
              × (n' ≡ n + (if is_some w''.last_state then 1 else 0))
              × (length w''.published
                  ≡ length w.published + (if is_some w''.last_state then 1 else 0))
        go w' none l e i' same last =
            (w', n, rw (e, l) refl, i', last, rw l (omega arith), rw (same, l) (omega arith))
        go w' (some state) l e i' same last =
            let sound : IsSound c state =
              (let k : LastIsSound c w'.last_state = i'.last in rw l at k) in
            (
              record w' { published = w'.published ++ state ∷ [] },
              n + 1,
              rw (e, l) refl,
              record {
                calibrated = i'.calibrated;
                ready = i'.ready;
                last = i'.last;
                published =
                    All-append (IsSound c) w'.published (state ∷ []) i'.published (sound, tt);
              },
              last,
              rw l refl,
              rw (l, length-append w'.published (state ∷ []), same) refl,
            )
