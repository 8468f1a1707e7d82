-- ===== src/Perception/Stopped.antt =====
-- Frame after frame of `MovementAnalyzer` of libs/sentinel/perception/movement.py: the time that a
-- vehicle has been stopped for.
use sentinal_ai_control_room.Prelude.{
  ℕ, ◌+◌, ◌≡◌, refl, ap, ◌∙◌, Bool, true, false, Option, some, List, [], ◌∷◌, sum, map, All, nat_eq,
  arith,
}
use sentinal_ai_control_room.Prelude.Dict
use sentinal_ai_control_room.Prelude.Dict.{Dict, keys, listed, get-set}
use sentinal_ai_control_room.Prelude.Distinct.{AllDistinct}
use sentinal_ai_control_room.Perception.Geometry.{Track, speed_ge}
use sentinal_ai_control_room.Perception.Movement.{MovementAnalyzer, info_of, ids, update}
use sentinal_ai_control_room.Perception.Hysteresis.{IsAnalyzing, known}
use sentinal_ai_control_room.Perception.Waiting.{
  IsSeen, listed-track, IsFrameSeen, update-IsFrameSeen,
}

-- The frames that an analyzer is given, one after the other.
abbrev pub analyze : MovementAnalyzer → List (List Track × ℕ) → MovementAnalyzer
analyze a [] = a
analyze a ((tracks, dt) ∷ frames) = analyze (update a tracks dt).0 frames

-- A frame with the track `k`, slower than the threshold for moving again.
abbrev pub IsHeld : ℕ → ℕ → List Track × ℕ → Type 0
IsHeld k resume (tracks, dt) =
    AllDistinct (ids tracks)
    × (listed (ids tracks) k ≡ true)
    × All (λ (t : Track). t.track_id ≡ k → speed_ge t.velocity resume ≡ false) tracks

All-both {ℓ κ μ} :
    {A : Type ℓ} (P : A → Type κ) (Q : A → Type μ) (xs : List A)
    → All P xs
    → All Q xs
    → All (λ x. P x × Q x) xs
All-both P Q [] p q = tt
All-both P Q (x ∷ xs) p q = ((p.0, q.0), All-both P Q xs p.1 q.1)

held-known :
    (a : MovementAnalyzer) (k stopped : ℕ) (tracks : List Track) (dt : ℕ)
    → known a k ≡ (some false, some stopped)
    → IsHeld k a.resume_threshold (tracks, dt)
    → IsFrameSeen a tracks dt (update a tracks dt).0 (update a tracks dt).1
    → known (update a tracks dt).0 k ≡ (some false, some (stopped + dt))
held-known a k stopped tracks dt h held after =
    let (t, both, same) =
      listed-track _ k tracks
        (All-both
          (λ (t : Track).
            IsSeen (info_of a t dt) t.track_id (update a tracks dt).0 (update a tracks dt).1)
          (λ (t : Track). t.track_id ≡ k → speed_ge t.velocity a.resume_threshold ≡ false) tracks
          after.seen held.2)
        held.1 in
    let was = ap (λ (p : Option Bool × Option ℕ). p.0) h in
    let for_s = ap (λ (p : Option Bool × Option ℕ). p.1) h in
    let was' : Dict.get a.is_moving t.track_id ≡ some false = rw same was in
    let for' : Dict.get a.stopped_s t.track_id ≡ some stopped = rw same for_s in
    let seen : known (update a tracks dt).0 t.track_id ≡ (some false, some (stopped + dt)) =
      both.0.0 ∙ (rw (was', for', both.1 same) refl) in
    rw (← same) seen

-- A vehicle that is stopped stays so through frames in each of which it is tracked and slower than
-- the threshold for moving again, whether or not it is faster than the one for stopping, and the
-- time it has been stopped for grows by exactly the length of each frame.
pub stopped-analyze :
    (k stopped : ℕ) (frames : List (List Track × ℕ)) (a : MovementAnalyzer)
    → IsAnalyzing a
    → known a k ≡ (some false, some stopped)
    → All (IsHeld k a.resume_threshold) frames
    → known (analyze a frames) k
      ≡ (some false, some (stopped + sum (map (λ (f : List Track × ℕ). f.1) frames)))
stopped-analyze k stopped [] a i h held = let e : stopped ≡ stopped + 0 = omega arith in rw (← e) h
stopped-analyze k stopped ((tracks, dt) ∷ frames) a i h held =
    let after = update-IsFrameSeen a tracks dt i held.0.0 in
    let a' = (update a tracks dt).0 in
    let h' = held-known a k stopped tracks dt h held.0 after in
    let later =
      stopped-analyze k (stopped + dt) frames a' after.analyzing h' (rw after.resume held.1) in
    let e : stopped + (dt + sum (map (λ (f : List Track × ℕ). f.1) frames))
        ≡ stopped + dt + sum (map (λ (f : List Track × ℕ). f.1) frames) =
      omega arith in
    rw e later
