-- ===== src/Perception/Geometry.antt =====
-- libs/sentinel/perception/geometry.py, and the boxes, detections and tracks of
-- libs/sentinel/contracts/value_objects.py. Boxes are in thousandths of a pixel; points, of which
-- centroids are means of two coordinates, in halves of that. Every coordinate is within the image,
-- so not negative. `root` is the square root `x ** 0.5`.
use sentinal_ai_control_room.Prelude.{
  ℕ, ◌+◌, ◌-◌, ◌*◌, ◌/◌, min, max, Bool, true, false, not, Option, List, [], ◌∷◌, String, leb, ltb,
  ◌&&◌, if◌then◌else◌, ◌==◌,
}
use sentinal_ai_control_room.Prelude.Dict.{Dict}
use sentinal_ai_control_room.Prelude.Results.{Result, ok, raise, value_error}
use sentinal_ai_control_room.Contracts.Enums.{
  Direction, north, south, east, west, VehicleClass, direction_eq,
}

pub record Point : Type 0 where
  pub x : ℕ
  pub y : ℕ

pub record BoundingBox : Type 0 where
  pub x1 : ℕ
  pub y1 : ℕ
  pub x2 : ℕ
  pub y2 : ℕ

-- Building a box, with `_check_ordering`.
unfoldable pub check_ordering : BoundingBox → Result BoundingBox
check_ordering b =
    if leb b.x2 b.x1 then raise value_error else if leb b.y2 b.y1 then raise value_error else ok b

abbrev pub width : BoundingBox → ℕ
width b = b.x2 - b.x1

abbrev pub height : BoundingBox → ℕ
height b = b.y2 - b.y1

abbrev pub area : BoundingBox → ℕ
area b = width b * height b

abbrev pub centroid : BoundingBox → Point
centroid b = record { x = b.x1 + b.x2; y = b.y1 + b.y2 }

pub record Detection : Type 0 where
  pub vehicle_class : VehicleClass
  pub confidence : ℕ
  pub box : BoundingBox

-- A velocity as the displacement of a centroid, by its two components up to their signs, in the time
-- `dt`: nothing but its magnitude is used.
pub record Velocity : Type 0 where
  pub dx : ℕ
  pub dy : ℕ
  pub dt : ℕ

-- `velocity.speed >= threshold`, with both sides squared.
unfoldable pub speed_ge : Velocity → ℕ → Bool
speed_ge v threshold =
    leb (4 * (threshold * threshold) * (v.dt * v.dt)) (1_000_000 * (v.dx * v.dx + v.dy * v.dy))

pub record Track : Type 0 where
  pub track_id : ℕ
  pub vehicle_class : VehicleClass
  pub box : BoundingBox
  pub velocity : Velocity
  pub lane : Option Direction
  pub is_moving : Bool
  pub age_frames : ℕ

abbrev pub difference : ℕ → ℕ → ℕ
difference a b = if leb a b then b - a else a - b

-- Whether a ray to the right from the point crosses an edge: the quotient in `x_cross` is multiplied
-- out, by the positive one of `y2 - y1` and `y1 - y2`.
abbrev pub crosses : Point → Point → Point → Bool
crosses p a b =
    if leb a.y p.y && ltb p.y b.y
    then leb (p.x * (b.y - a.y) + (p.y - a.y) * a.x) (a.x * (b.y - a.y) + (p.y - a.y) * b.x)
    else if leb b.y p.y && ltb p.y a.y
    then leb (p.x * (a.y - b.y) + (a.y - p.y) * a.x) (a.x * (a.y - b.y) + (a.y - p.y) * b.x)
    else false

-- The loop over the edges: from each vertex to the next one, and from the last to the `first`.
unfoldable pub ray_cast : Point → Point → List Point → Bool → Bool
ray_cast p first [] inside = inside
ray_cast p first (a ∷ []) inside = if crosses p a first then not inside else inside
ray_cast p first (a ∷ b ∷ rest) inside =
    ray_cast p first (b ∷ rest) (if crosses p a b then not inside else inside)

unfoldable pub point_in_polygon : Point → List Point → Bool
unfolding ray_cast
point_in_polygon p [] = false
point_in_polygon p (a ∷ rest) = ray_cast p a (a ∷ rest) false

abbrev pub distance : (ℕ → ℕ) → Point → Point → ℕ
distance root a b =
    root (difference a.x b.x * difference a.x b.x + difference a.y b.y * difference a.y b.y)

pub record LaneCalibration : Type 0 where
  pub direction : Direction
  pub roi_polygon : List Point
  pub stop_line : Point
  pub metres_per_pixel : ℕ
  pub approach_length_m : ℕ

abbrev pub contains : LaneCalibration → Point → Bool
contains c p = point_in_polygon p c.roi_polygon

unfoldable pub furthest : (ℕ → ℕ) → Point → List Point → ℕ
furthest root a [] = 0
furthest root a (p ∷ ps) = max (distance root a p) (furthest root a ps)

-- `queue_length_m`, in thousandths of a metre, of a distance in two-thousandths of a pixel.
unfoldable pub queue_length_m : (ℕ → ℕ) → LaneCalibration → List Point → ℕ
unfolding furthest
queue_length_m root c stopped = furthest root c.stop_line stopped * c.metres_per_pixel / 2000

abbrev pub occupancy_pct : LaneCalibration → ℕ → ℕ
occupancy_pct c length_m = min 100_000 (length_m * 100_000 / c.approach_length_m)

pub record IntersectionCalibration : Type 0 where
  pub intersection_id : String
  pub lanes : Dict Direction LaneCalibration

-- The loop of `_check_directions`.
unfoldable pub calibration_consistent : Dict Direction LaneCalibration → Bool
calibration_consistent [] = true
calibration_consistent ((d, lane) ∷ rest) = (lane.direction == d) && calibration_consistent rest

abbrev pub full_frame : ℕ → ℕ → List Point
full_frame w h =
    record { x = 0; y = 0 }
    ∷ record { x = w; y = 0 }
    ∷ record { x = w; y = h }
    ∷ record { x = 0; y = h }
    ∷ []

abbrev pub frame_lane : ℕ → ℕ → ℕ → Direction → Direction × LaneCalibration
frame_lane w h metres_per_pixel d = (
  d,
  record {
    direction = d;
    roi_polygon = full_frame w h;
    stop_line = record { x = w / 2; y = h };
    metres_per_pixel = metres_per_pixel;
    approach_length_m = 200_000;
  },
)

unfoldable pub default_calibration : String → ℕ → ℕ → ℕ → IntersectionCalibration
default_calibration id frame_width frame_height metres_per_pixel =
    let lane = frame_lane (frame_width * 2000) (frame_height * 2000) metres_per_pixel in
    record { intersection_id = id; lanes = lane north ∷ lane south ∷ lane east ∷ lane west ∷ [] }
