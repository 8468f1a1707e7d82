-- ===== src/Perception/Region.antt =====
-- The region of interest of `default_calibration` of libs/sentinel/perception/geometry.py.
use native.Mathlib.Nat.{mul-le-mul_right, suc-mul}
use sentinal_ai_control_room.Prelude.{
  ℕ, suc, ◌+◌, ◌-◌, ◌*◌, ◌≤◌, ◌<◌, ◌≡◌, false, ◌&&◌, leb, ltb, inl, inr, Bool-cases, arith,
}
use sentinal_ai_control_room.Contracts.Enums.{Direction}
use sentinal_ai_control_room.Perception.Geometry.{
  Point, crosses, ray_cast, point_in_polygon, frame_lane, contains,
}

leb-mul_right : (a b k : ℕ) → 0 < k → leb (a * k) (b * k) ≡ leb a b
leb-mul_right a b k h = elim (Bool-cases (leb a b)) [
  | inl e ↦ (let l : a ≤ b = ground arith in let m = mul-le-mul_right k l in ground (arith, m))
  | inr e ↦
      (let l : suc b ≤ a = ground arith in
        let m = mul-le-mul_right k l in ground (arith, m, suc-mul b k))
]

abbrev at : ℕ → ℕ → Point
at x y = record { x = x; y = y }

crosses-level : (p : Point) (a b y : ℕ) → crosses p (at a y) (at b y) ≡ false
crosses-level p a b y = ground arith

crosses-down : (p : Point) (a h : ℕ) → crosses p (at a 0) (at a h) ≡ (ltb p.y h && leb p.x a)
crosses-down p a h = elim (Bool-cases (ltb p.y h)) [
  | inl below ↦
      (let scaled = leb-mul_right p.x a h (ground arith) in
        let shifted : leb (p.x * h + p.y * a) (a * h + p.y * a) ≡ leb (p.x * h) (a * h) =
          ground arith in
        ground (arith, scaled, shifted))
  | inr above ↦ ground arith
]

crosses-up : (p : Point) (a h : ℕ) → crosses p (at a h) (at a 0) ≡ (ltb p.y h && leb p.x a)
crosses-up p a h = elim (Bool-cases (ltb p.y h)) [
  | inl below ↦
      (let scaled = leb-mul_right p.x a h (ground arith) in
        let shifted : leb (p.x * h + (h - p.y) * a) (a * h + (h - p.y) * a)
            ≡ leb (p.x * h) (a * h) =
          ground arith in
        ground (arith, scaled, shifted))
  | inr above ↦ ground arith
]

-- The default region of an approach is the frame without its left and its bottom edge.
pub contains-frame :
    (w h metres_per_pixel : ℕ) (d : Direction) (p : Point)
    → contains (frame_lane w h metres_per_pixel d).1 p ≡ (ltb 0 p.x && leb p.x w && ltb p.y h)
unfolding point_in_polygon ray_cast
contains-frame w h metres_per_pixel d p =
    let top = crosses-level p 0 w 0 in
    let right = crosses-down p w h in
    let bottom = crosses-level p w 0 h in
    let left = crosses-up p 0 h in rw (top, right, bottom, left) (ground arith)
