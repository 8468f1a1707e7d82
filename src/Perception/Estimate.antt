-- ===== src/Perception/Estimate.antt =====
-- What `DensityEstimator` and `PerceptionPipeline` of libs/sentinel/perception make of any frame.
use sentinal_ai_control_room.Prelude.{
  ℕ, ◌*◌, ◌/◌, ◌≤◌, ◌≡◌, refl, Bool, true, false, not, List, [], ◌∷◌, ◌++◌, sum, length, leb, All,
  ◌==◌, inl, inr, Bool-cases, Option-cases, nat_eq, arith,
}
use native.Mathlib.Nat.{div-add-mod, mul-le-mul_left}
use sentinal_ai_control_room.Prelude.Dict
use sentinal_ai_control_room.Prelude.Dict.{
  Dict, keys, listed, get-listed, keys-set_known, AllEntries, AllEntries-get, AllEntries-set,
}
use sentinal_ai_control_room.Prelude.Distinct.{AllDistinct, listed-snoc}
use sentinal_ai_control_room.Prelude.Results.{ok}
use sentinal_ai_control_room.Contracts.Enums.{Direction, direction_eq}
use sentinal_ai_control_room.Contracts.Values.{
  LaneState, LaneIsValid, check_counts, check_counts-LaneIsValid,
}
use sentinal_ai_control_room.Perception.Geometry.{
  Detection, Track, LaneCalibration, centroid, contains,
}
use sentinal_ai_control_room.Perception.Tracking
use sentinal_ai_control_room.Perception.Movement
use sentinal_ai_control_room.Perception.Movement.{MovementInfo}
use sentinal_ai_control_room.Perception.Density.{
  select, mean, moving_in, vehicles_of, described, estimate,
}
use sentinal_ai_control_room.Perception.Pipeline.{
  PerceptionPipeline, kept_of, confidences_of, process_lane,
}

length-select {ℓ} : {A : Type ℓ} (p : A → Bool) (xs : List A) → length (select p xs) ≤ length xs
length-select p [] = omega arith
length-select p (x ∷ xs) = ground (arith, length-select p xs)

All-select {ℓ κ} :
    {A : Type ℓ} (P : A → Type κ) (p : A → Bool) (xs : List A) → All P xs → All P (select p xs)
All-select P p [] a = tt
All-select P p (x ∷ xs) a = elim (Bool-cases (p x)) [
  | inl h ↦ rw h (a.0, All-select P p xs a.1)
  | inr h ↦ rw h (All-select P p xs a.1)
]

-- The lane that is described passes the checks of `LaneState`.
estimate-described :
    (root : ℕ → ℕ) (d : Direction) (tracks : List Track) (movement : Dict ℕ MovementInfo)
    (c : LaneCalibration)
    → estimate root d tracks movement c ≡ ok (described root d tracks movement c)
unfolding estimate described check_counts
estimate-described root d tracks movement c =
    let vehicles = vehicles_of tracks in
    let bound =
      length-select (λ (t : Track). not (moving_in (Dict.get movement t.track_id))) vehicles in
    ground (arith, bound)

described-IsReported :
    (root : ℕ → ℕ) (d : Direction) (tracks : List Track) (movement : Dict ℕ MovementInfo)
    (c : LaneCalibration)
    → (described root d tracks movement c).direction ≡ d
      × LaneIsValid (described root d tracks movement c)
unfolding described estimate
described-IsReported root d tracks movement c = (
  refl,
  check_counts-LaneIsValid (described root d tracks movement c)
      (estimate-described root d tracks movement c),
)

-- A mean of confidences is a confidence.
sum-bound : (xs : List ℕ) → All (λ x. x ≤ 1000) xs → sum xs ≤ length xs * 1000
sum-bound [] a = omega arith
sum-bound (x ∷ xs) a = omega (arith, a.0, sum-bound xs a.1)

pub mean-bound : (xs : List ℕ) → All (λ x. x ≤ 1000) xs → mean 1000 xs ≤ 1000
mean-bound [] a = omega arith
mean-bound (x ∷ xs) a =
    let n = length (x ∷ xs) in
    let s = sum (x ∷ xs) in
    let parts = div-add-mod s n in
    let total = sum-bound (x ∷ xs) a in
    elim (Bool-cases (leb (s / n) 1000)) [
      | inl h ↦ ground arith
      | inr h ↦
          (let above : 1001 ≤ s / n = ground arith in
            let scaled : n * 1001 ≤ n * (s / n) = mul-le-mul_left n above in
            absurd (omega (arith, parts, total, scaled)))
    ]

-- A detection's confidence is a probability.
abbrev pub IsCredible : List Detection → Type 0
IsCredible = All (λ (x : Detection). x.confidence ≤ 1000)

-- A lane reports the approach that it is kept under, and its numbers add up.
abbrev pub IsReported : Direction → LaneState → Type 0
IsReported d lane = (lane.direction ≡ d) × LaneIsValid lane

-- There is a tracker and an analyzer for every approach.
abbrev pub Serves : PerceptionPipeline → List Direction → Type 0
Serves p = All (λ d. (listed (keys p.trackers) d ≡ true) × (listed (keys p.analyzers) d ≡ true))

pub record IsReady (p : PerceptionPipeline) : Type 0 where
  pub serves : Serves p (keys p.calibration.lanes)
  pub once : AllDistinct (keys p.calibration.lanes)

pub confidences-bound :
    (xs : List Detection) → IsCredible xs → All (λ x. x ≤ 1000) (confidences_of xs)
confidences-bound [] a = tt
confidences-bound (x ∷ xs) a = (a.0, confidences-bound xs a.1)

pub kept-IsCredible :
    (found : Dict Direction (List Detection)) (d : Direction) (c : LaneCalibration)
    → AllEntries (λ d. IsCredible) found
    → IsCredible (kept_of found d c)
kept-IsCredible found d c a = elim (Option-cases (Dict.get found d)) [
  | inl g ↦ rw g tt
  | inr (xs, g) ↦ rw g (
      All-select (λ (x : Detection). x.confidence ≤ 1000)
        (λ (x : Detection). contains c (centroid x.box)) xs
        (AllEntries-get (λ d. IsCredible) found d xs a g))
]

-- What a step leaves of a pipeline: its calibration and whom it serves.
pub record IsSame (p p' : PerceptionPipeline) : Type 0 where
  pub calibration : p'.calibration ≡ p.calibration
  pub trackers : keys p'.trackers ≡ keys p.trackers
  pub analyzers : keys p'.analyzers ≡ keys p.analyzers

pub Serves-same :
    (p p' : PerceptionPipeline) (ds : List Direction) → IsSame p p' → Serves p ds → Serves p' ds
Serves-same p p' [] s a = tt
Serves-same p p' (d ∷ ds) s a =
    ((rw s.trackers a.0.0, rw s.analyzers a.0.1), Serves-same p p' ds s a.1)

pub apart :
    (d : Direction) (ds : List Direction) → listed ds d ≡ false → All (λ j. (d == j) ≡ false) ds
apart d [] h = tt
apart d (j ∷ ds) h = (
  ground (arith, direction_eq.test_iff d j, direction_eq.test_iff j d),
  apart d ds (ground (arith, h)),
)

pub still_new :
    (seen ds : List Direction) (d : Direction)
    → All (λ j. listed seen j ≡ false) ds
    → All (λ j. (d == j) ≡ false) ds
    → All (λ j. listed (seen ++ d ∷ []) j ≡ false) ds
still_new seen [] d a b = tt
still_new seen (j ∷ ds) d a b =
    (rw (listed-snoc seen d j, a.0, b.0) refl, still_new seen ds d a.1 b.1)

module _ (root : ℕ → ℕ) where
  pub process_lane-reports :
      (p : PerceptionPipeline) (d : Direction) (c : LaneCalibration) (kept : List Detection)
      (dt : ℕ)
      → listed (keys p.trackers) d ≡ true
      → listed (keys p.analyzers) d ≡ true
      → (p' : PerceptionPipeline) × (lane : LaneState) × (process_lane root p d c kept dt
          ≡ (p', ok lane))
        × IsSame p p'
        × IsReported d lane
  unfolding process_lane
  process_lane-reports p d c kept dt t a =
      let (tracker, g) = get-listed p.trackers d t in
      let (analyzer, h) = get-listed p.analyzers d a in
      let (tracker', tracks) = Tracking.update tracker kept dt d in
      let (analyzer', movement) = Movement.update analyzer tracks dt in
      let lane = described root d tracks movement c in
      let e = estimate-described root d tracks movement c in
      let p' = record p {
        trackers = Dict.set p.trackers d tracker';
        analyzers = Dict.set p.analyzers d analyzer';
      } in
      (
        p',
        lane,
        rw (process_lane, g, h, e) refl,
        record {
          calibration = refl;
          trackers = keys-set_known p.trackers d tracker tracker' g;
          analyzers = keys-set_known p.analyzers d analyzer analyzer' h;
        },
        described-IsReported root d tracks movement c,
      )
