-- ===== src/Prediction/Steady.antt =====
-- The trend of libs/sentinel/prediction/forecaster.py through samples that lie on a line.
use native.Mathlib.Nat.{mul-div_cancel_left, mul-div-mul_left, mul-sub, zero-div, mul-pos}
use sentinal_ai_control_room.Prelude.{
  ℕ, ◌+◌, ◌-◌, ◌*◌, ◌/◌, ◌<◌, ◌≡◌, refl, sym, ap, ◌∙◌, max, false, List, [], ◌∷◌, length, nat_beq,
  All, arith,
}
use sentinal_ai_control_room.Contracts.Enums.{Direction}
use sentinal_ai_control_room.Prediction.Forecaster.{
  Sample, Line, sum_of, least_squares, value_at, residual, residual_std, projected, fit_and_project,
}

-- A line with the slope `(b - c) / k` and the value `(a - e) / k` at time 0.
pub record Slant : Type 0 where
  pub k : ℕ
  pub a : ℕ
  pub b : ℕ
  pub c : ℕ
  pub e : ℕ

-- The length at a time, which is not below 0.
abbrev pub length_at : Slant → ℕ → ℕ
length_at l t = (l.a + l.b * t - (l.e + l.c * t)) / l.k

-- The queue of the sample stands on the line.
abbrev pub OnLine : Slant → Sample → Type 0
OnLine l s = l.k * s.queue_len_m + (l.e + l.c * s.t) ≡ l.a + l.b * s.t

sum_of-queue :
    (l : Slant) (samples : List Sample)
    → All (OnLine l) samples
    → l.k * sum_of (λ s. s.queue_len_m) samples
        + (length samples * l.e + l.c * sum_of (λ s. s.t) samples)
      ≡ length samples * l.a + l.b * sum_of (λ s. s.t) samples
sum_of-queue l [] on = omega arith
sum_of-queue l (s ∷ rest) on = omega (arith, on.0, sum_of-queue l rest on.1)

sum_of-product :
    (l : Slant) (samples : List Sample)
    → All (OnLine l) samples
    → l.k * sum_of (λ s. s.t * s.queue_len_m) samples
        + (l.e * sum_of (λ s. s.t) samples + l.c * sum_of (λ s. s.t * s.t) samples)
      ≡ l.a * sum_of (λ s. s.t) samples + l.b * sum_of (λ s. s.t * s.t) samples
sum_of-product l [] on = omega arith
sum_of-product l (s ∷ rest) on =
    let own = ap (λ q. s.t * q) on.0 in omega (arith, own, sum_of-product l rest on.1)

-- The line of the least squares, of the sums of the samples.
abbrev fitted : ℕ → ℕ → ℕ → ℕ → ℕ → Line
fitted n st sq stq v = record {
  n = n;
  sum_t = st;
  sum_q = sq;
  plus = n * stq;
  minus = st * sq;
  var = v;
}

module _ (l : Slant) (n st stt sq stq v : ℕ) (positive : 0 < l.k) (spread : n * stt ≡ st * st + v)
    (queues : l.k * sq + (n * l.e + l.c * st) ≡ n * l.a + l.b * st)
    (products : l.k * stq + (l.e * st + l.c * stt) ≡ l.a * st + l.b * stt) where
  abbrev above : ℕ → ℕ
  above t = sq * v + n * stq * (n * t) + st * sq * st

  abbrev below : ℕ → ℕ
  below t = st * sq * (n * t) + n * stq * st

  balance :
      (t : ℕ)
      → l.k * above t + (l.e + l.c * t) * (n * v) ≡ l.k * below t + (l.a + l.b * t) * (n * v)
  balance t =
      let q1 = ap (λ z. z * v) queues in
      let q2 = ap (λ z. z * (st * st)) queues in
      let q3 = ap (λ z. z * (st * (n * t))) queues in
      let p1 = ap (λ z. z * (n * (n * t))) products in
      let p2 = ap (λ z. z * (n * st)) products in
      let b1 = ap (λ z. z * (l.b * (n * t))) spread in
      let b2 = ap (λ z. z * (l.b * st)) spread in
      let c1 = ap (λ z. z * (l.c * (n * t))) spread in
      let c2 = ap (λ z. z * (l.c * st)) spread in omega (arith, q1, q2, q3, p1, p2, b1, b2, c1, c2)

  value_at-fitted : (t : ℕ) → 0 < n * v → value_at (fitted n st sq stq v) t ≡ length_at l t
  unfolding value_at
  value_at-fitted t wide =
      let d = above t - below t in
      let x = l.a + l.b * t in
      let y = l.e + l.c * t in
      let scaled : l.k * above t - l.k * below t ≡ n * v * x - n * v * y =
        omega (arith, balance t) in
      let both : l.k * d ≡ n * v * (x - y) =
        mul-sub l.k (above t) (below t) ∙ scaled ∙ sym (mul-sub (n * v) x y) in
      let swapped : l.k * (n * v) ≡ n * v * l.k = omega arith in
      sym (mul-div-mul_left d (n * v) positive)
      ∙ ap (λ z. z / (l.k * (n * v))) both
      ∙ ap (λ z. n * v * (x - y) / z) swapped
      ∙ mul-div-mul_left (x - y) l.k wide

  residual-fitted : (s : Sample) → OnLine l s → residual (fitted n st sq stq v) s ≡ 0
  residual-fitted s on =
      let q = ap (λ z. z * (n * v)) on in
      let scaled : l.k * (s.queue_len_m * (n * v) + below s.t) ≡ l.k * above s.t =
        omega (arith, q, balance s.t) in
      let same : s.queue_len_m * (n * v) + below s.t ≡ above s.t =
        sym (mul-div_cancel_left (s.queue_len_m * (n * v) + below s.t) positive)
        ∙ ap (λ z. z / l.k) scaled
        ∙ mul-div_cancel_left (above s.t) positive in
      let own : n * s.queue_len_m * v + st * sq * (n * s.t) + n * stq * st
          ≡ sq * v + n * stq * (n * s.t) + st * sq * st =
        omega (arith, same) in
      ground (arith, own)

  residuals-fitted :
      (samples : List Sample)
      → All (OnLine l) samples
      → sum_of (λ s. residual (fitted n st sq stq v) s * residual (fitted n st sq stq v) s) samples
        ≡ 0
  residuals-fitted [] on = refl
  residuals-fitted (s ∷ rest) on =
      rw (residual-fitted s on.0, residuals-fitted rest on.1) (omega arith)

-- The samples were not all taken at one time: the variance of their times is not 0.
abbrev pub IsSpread : List Sample → Type 0
IsSpread samples =
    sum_of (λ s. s.t) samples * sum_of (λ s. s.t) samples
    < length samples * sum_of (λ s. s.t * s.t) samples

least_squares-line :
    (samples : List Sample)
    → IsSpread samples
    → least_squares samples
      ≡ fitted
          (length samples)
          (sum_of (λ s. s.t) samples)
          (sum_of (λ s. s.queue_len_m) samples)
          (sum_of (λ s. s.t * s.queue_len_m) samples)
          (length samples * sum_of (λ s. s.t * s.t) samples
            - sum_of (λ s. s.t) samples * sum_of (λ s. s.t) samples)
unfolding least_squares
least_squares-line samples spread =
    let n = length samples in
    let st = sum_of (λ s. s.t) samples in
    let stt = sum_of (λ s. s.t * s.t) samples in
    let some_var : nat_beq (n * stt - st * st) 0 ≡ false = ground (arith, spread) in
    rw some_var refl

positive-product :
    (samples : List Sample)
    → IsSpread samples
    → 0
      < length samples
        * (length samples * sum_of (λ s. s.t * s.t) samples
            - sum_of (λ s. s.t) samples * sum_of (λ s. s.t) samples)
positive-product [] spread = absurd (omega (arith, spread))
positive-product (s ∷ rest) spread = mul-pos (omega arith) (omega (arith, spread))

-- Without residuals the forecast is the fitted value.
at_line :
    (d : Direction) (x horizon_s : ℕ) (latest : Sample)
    → ((projected d horizon_s latest x 0).predicted_queue_length_m ≡ x)
      × ((projected d horizon_s latest x 0).lower_bound_m ≡ x)
      × ((projected d horizon_s latest x 0).upper_bound_m ≡ x)
      × ((projected d horizon_s latest x 0).confidence ≡ 950)
at_line d x horizon_s latest =
    let sure = zero-div (max 1000 latest.queue_len_m) in
    (ground arith, omega arith, omega arith, rw sure refl)

-- If the queue of a lane has grown or shrunk on a line, of any fractional slope, in the samples, which
-- were not all taken at one time, then the forecast is the length that the line has at the horizon,
-- or 0 where the line is below 0, with a band of no width and the highest confidence. The root of 0
-- is 0.
pub fit_and_project-line :
    (root : ℕ → ℕ) (d : Direction) (l : Slant) (horizon_s : ℕ) (samples : List Sample)
    (latest : Sample)
    → root 0 ≡ 0
    → 0 < l.k
    → All (OnLine l) samples
    → IsSpread samples
    → ((fit_and_project root d samples latest horizon_s).predicted_queue_length_m
        ≡ length_at l (latest.t + horizon_s))
      × ((fit_and_project root d samples latest horizon_s).lower_bound_m
          ≡ length_at l (latest.t + horizon_s))
      × ((fit_and_project root d samples latest horizon_s).upper_bound_m
          ≡ length_at l (latest.t + horizon_s))
      × ((fit_and_project root d samples latest horizon_s).confidence ≡ 950)
unfolding fit_and_project residual_std
fit_and_project-line root d l horizon_s samples latest zero_root positive on spread =
    let n = length samples in
    let st = sum_of (λ s. s.t) samples in
    let stt = sum_of (λ s. s.t * s.t) samples in
    let sq = sum_of (λ s. s.queue_len_m) samples in
    let stq = sum_of (λ s. s.t * s.queue_len_m) samples in
    let v = n * stt - st * st in
    let split : n * stt ≡ st * st + v = omega (arith, spread) in
    let queues = sum_of-queue l samples on in
    let products = sum_of-product l samples on in
    let t = latest.t + horizon_s in
    let line = least_squares-line samples spread in
    let value : value_at (least_squares samples) t ≡ length_at l t = rw line (
      value_at-fitted l n st stt sq stq v positive split queues products t
        (positive-product samples spread)) in
    let flat : residual_std root (least_squares samples) samples ≡ 0 =
      rw (line, residuals-fitted l n st stt sq stq v positive split queues products samples on)
        (ap root (zero-div (n * (n * v * (n * v)))) ∙ zero_root) in
    rw (value, flat) (at_line d (length_at l t) horizon_s latest)
