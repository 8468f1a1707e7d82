-- ===== src/Perception/Recovery.antt =====
-- Runs of `PerceptionWorker` of libs/sentinel/perception/worker.py.
use sentinal_ai_control_room.Prelude.{
  ℕ, zero, suc, ◌+◌, ◌-◌, ◌≡◌, refl, ap, ◌∙◌, Bool, true, false, ◌||◌, Option, none, some, List, [],
  ◌∷◌, take, length, if◌then◌else◌, inl, inr, Bool-cases, arith,
}
use sentinal_ai_control_room.Prelude.Dict.{Dict}
use sentinal_ai_control_room.Prelude.Results.{Result, ok}
use sentinal_ai_control_room.Contracts.Enums.{Direction, SignalPhase}
use sentinal_ai_control_room.Perception.Geometry.{Detection, IntersectionCalibration}
use sentinal_ai_control_room.Perception.Worker.{
  PerceptionWorker, detect_all, is_over, run_from, run,
}
use sentinal_ai_control_room.Perception.Estimate.{IsCredible}
use sentinal_ai_control_room.Perception.Bundles.{IsRunning, is_some, returns, turn-IsRunning}

-- The bundles before the limit, of those from a number on.
abbrev pub limited {ℓ} : {A : Type ℓ} → Option ℕ → ℕ → List A → List A
limited none index bundles = bundles
limited (some max_frames) index bundles = take (max_frames - index) bundles

take-nil {ℓ} : {A : Type ℓ} (n : ℕ) → take {A = A} n [] ≡ []
take-nil zero = refl
take-nil (suc n) = refl

module _ {Frame : Type 0} (root : ℕ → ℕ) (detect : Frame → Result (List Detection))
    (signal : ℕ → SignalPhase × ℕ) (clock : ℕ → ℕ) where
  -- The bundles from the first good one on, or all, if there has been a good one already.
  abbrev pub count_from_good : Bool → List (Dict Direction Frame) → ℕ
  count_from_good seen [] = 0
  count_from_good seen (bundle ∷ rest) =
      let seen' = seen || returns (detect_all root detect signal clock bundle) in
      (if seen' then 1 else 0) + count_from_good seen' rest

  module _
      (credible : (frame : Frame) (found : List Detection)
        → detect frame ≡ ok found
        → IsCredible found)
      (c : IntersectionCalibration) where
    limited-next :
        (max_frames : Option ℕ) (index : ℕ) (bundle : Dict Direction Frame)
        (rest : List (Dict Direction Frame))
        → is_over root detect signal clock max_frames index ≡ false
        → limited max_frames index (bundle ∷ rest) ≡ bundle ∷ limited max_frames (index + 1) rest
    limited-next none index bundle rest h = refl
    limited-next (some m) index bundle rest h =
        let e : m - index ≡ suc (m - (index + 1)) = ground arith in rw e refl

    limited-nil :
        (max_frames : Option ℕ) (index : ℕ)
        → limited {A = Dict Direction Frame} max_frames index [] ≡ []
    limited-nil none index = refl
    limited-nil (some m) index = take-nil (m - index)

    limited-over :
        (max_frames : Option ℕ) (index : ℕ) (bundles : List (Dict Direction Frame))
        → is_over root detect signal clock max_frames index ≡ true
        → limited max_frames index bundles ≡ []
    limited-over none index bundles h = absurd (cc)
    limited-over (some m) index bundles h = (let e : m - index ≡ 0 = ground arith in rw e refl)

    run_from-IsRunning :
        (max_frames : Option ℕ) (index : ℕ) (bundles : List (Dict Direction Frame))
        (w : PerceptionWorker) (n : ℕ)
        → IsRunning c w
        → (w' : PerceptionWorker) × (n' : ℕ) × (run_from root detect signal clock max_frames index
              bundles w n
            ≡ (w', n'))
          × IsRunning c w'
          × (n' ≡ n + count_from_good (is_some w.last_state) (limited max_frames index bundles))
          × (length w'.published
              ≡ length w.published
                + count_from_good (is_some w.last_state) (limited max_frames index bundles))
    unfolding run_from
    run_from-IsRunning max_frames index [] w n i =
        let e = limited-nil max_frames index in
        (w, n, refl, i, rw e (omega arith), rw e (omega arith))
    run_from-IsRunning max_frames index (bundle ∷ rest) w n i =
        elim (Bool-cases (is_over root detect signal clock max_frames index)) [
          | inl over ↦
              (let e = limited-over max_frames index (bundle ∷ rest) over in
                (w, n, rw (run_from, over) refl, i, rw e (omega arith), rw e (omega arith)))
          | inr on ↦
              (let (w1, n1, turn, i1, last, count, more) =
                  turn-IsRunning root detect signal clock credible c w index n bundle i in
                let (w', n', e, i', count', more') =
                  run_from-IsRunning max_frames (index + 1) rest w1 n1 i1 in
                let loop : PerceptionWorker × ℕ → PerceptionWorker × ℕ =
                  λ (out : PerceptionWorker × ℕ).
                    if is_over root detect signal clock max_frames index
                    then (w, n)
                    else run_from root detect signal clock max_frames (index + 1) rest out.0
                        out.1 in
                let stepped : run_from root detect signal clock max_frames index (bundle ∷ rest) w n
                    ≡ loop (w1, n1) =
                  ap loop turn in
                let resumed : loop (w1, n1) ≡ (w', n') = rw on e in
                let l = limited-next max_frames index bundle rest on in
                (
                  w',
                  n',
                  stepped ∙ resumed,
                  i',
                  rw (l, ← last) (omega (arith, count, count')),
                  rw (l, ← last) (omega (arith, more, more')),
                ))
        ]

    -- A run of the worker that starts with a ready pipeline publishes a state for
    -- every bundle from the first one on for which the detector answers, of those before the limit,
    -- and from the start if there is a last good state. It returns the number of the states that it
    -- published, every state published is complete and consistent for the calibration, and the
    -- pipeline stays ready. The detector gives no confidence above 1.
    pub run-IsRunning :
        (max_frames : Option ℕ) (bundles : List (Dict Direction Frame)) (w : PerceptionWorker)
        → IsRunning c w
        → (w' : PerceptionWorker) × (processed : ℕ) × (run root detect signal clock w max_frames
              bundles
            ≡ (w', processed))
          × IsRunning c w'
          × (processed ≡ count_from_good (is_some w.last_state) (limited max_frames 0 bundles))
          × (length w'.published ≡ length w.published + processed)
    unfolding run
    run-IsRunning max_frames bundles w i =
        let (w', n', e, i', count, more) = run_from-IsRunning max_frames 0 bundles w 0 i in
        (w', n', e, i', omega (arith, count), omega (arith, count, more))
