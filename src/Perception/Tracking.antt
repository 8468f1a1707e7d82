-- ===== src/Perception/Tracking.antt =====
-- `IouTracker` of libs/sentinel/perception/tracking.py. A score is a fraction; scores are compared by
-- cross multiplication.
use sentinal_ai_control_room.Prelude.{
  ℕ, ◌+◌, ◌-◌, ◌*◌, min, max, Bool, true, false, ◌&&◌, ◌||◌, none, some, List, [], ◌∷◌, ◌++◌, map,
  leb, ltb, nat_beq, nat_eq, length, if◌then◌else◌,
}
use sentinal_ai_control_room.Prelude.Dict
use sentinal_ai_control_room.Prelude.Dict.{Dict, keys, values, listed}
use sentinal_ai_control_room.Contracts.Enums.{Direction, VehicleClass}
use sentinal_ai_control_room.Perception.Geometry.{
  Point, BoundingBox, Detection, Velocity, Track, area, centroid, difference, speed_ge,
}

pub record Score : Type 0 where
  pub num : ℕ
  pub den : ℕ

unfoldable pub iou : BoundingBox → BoundingBox → Score
iou a b =
    let iw = min a.x2 b.x2 - max a.x1 b.x1 in
    let ih = min a.y2 b.y2 - max a.y1 b.y1 in
    let intersection = iw * ih in
    let union = area a + area b - intersection in
    if nat_beq intersection 0 || nat_beq union 0
    then record { num = 0; den = 1 }
    else record { num = intersection; den = union }

-- `_TrackRecord`.
pub record TrackRecord : Type 0 where
  pub track_id : ℕ
  pub box : BoundingBox
  pub vehicle_class : VehicleClass
  pub centre : Point
  pub velocity : Velocity
  pub hits : ℕ
  pub misses : ℕ
  pub age : ℕ

pub record IouTracker : Type 0 where
  pub iou_threshold : ℕ
  pub max_misses : ℕ
  pub min_hits : ℕ
  pub moving_threshold : ℕ
  pub tracks : Dict ℕ TrackRecord
  pub next_id : ℕ

-- The constructor with its defaults.
abbrev pub new_tracker : ℕ → IouTracker
new_tracker moving_speed_threshold = record {
  iou_threshold = 300;
  max_misses = 5;
  min_hits = 2;
  moving_threshold = moving_speed_threshold;
  tracks = [];
  next_id = 1;
}

abbrev pub reset : IouTracker → IouTracker
reset t = record t { tracks = []; next_id = 1 }

abbrev pub active_count : IouTracker → ℕ
active_count t = length t.tracks

-- A candidate of `_associate`, with the detection at its index.
pub record Pair : Type 0 where
  pub score : Score
  pub track_id : ℕ
  pub det_index : ℕ
  pub det : Detection

-- The inner loop, over `enumerate(detections)` from an index on.
unfoldable pub pairs_of : ℕ → ℕ → TrackRecord → ℕ → List Detection → List Pair
pairs_of threshold track_id record_ i [] = []
pairs_of threshold track_id record_ i (det ∷ rest) =
    let score = iou record_.box det.box in
    let more = pairs_of threshold track_id record_ (i + 1) rest in
    if leb (threshold * score.den) (1000 * score.num)
    then record { score = score; track_id = track_id; det_index = i; det = det } ∷ more
    else more

-- The outer loop, over the tracks.
unfoldable pub all_pairs : ℕ → Dict ℕ TrackRecord → List Detection → List Pair
unfolding pairs_of
all_pairs threshold [] detections = []
all_pairs threshold ((track_id, r) ∷ rest) detections =
    pairs_of threshold track_id r 0 detections ++ all_pairs threshold rest detections

-- The order of the tuples `(score, track_id, det_index)`, descending.
abbrev pub before : Pair → Pair → Bool
before p q =
    let a = p.score.num * q.score.den in
    let b = q.score.num * p.score.den in
    if ltb b a
    then true
    else if ltb a b
    then false
    else if ltb q.track_id p.track_id
    then true
    else if ltb p.track_id q.track_id
    then false
    else leb q.det_index p.det_index

-- `pairs.sort(reverse=True)`; no two candidates are equal.
unfoldable pub insert_pair : Pair → List Pair → List Pair
insert_pair p [] = p ∷ []
insert_pair p (q ∷ qs) = if before p q then p ∷ q ∷ qs else q ∷ insert_pair p qs

unfoldable pub sort_pairs : List Pair → List Pair
unfolding insert_pair
sort_pairs [] = []
sort_pairs (p ∷ ps) = insert_pair p (sort_pairs ps)

-- `matched_tracks` and `matched_dets` hold the ids and the indices of the matches so far.
abbrev pub matched_tracks : List Pair → List ℕ
matched_tracks = map (λ (p : Pair). p.track_id)

abbrev pub matched_dets : List Pair → List ℕ
matched_dets = map (λ (p : Pair). p.det_index)

abbrev pub is_taken : List Pair → Pair → Bool
is_taken matches p =
    listed (matched_tracks matches) p.track_id || listed (matched_dets matches) p.det_index

-- The loop over the sorted candidates.
unfoldable pub greedy : List Pair → List Pair → List Pair
greedy [] matches = matches
greedy (p ∷ ps) matches = greedy ps (if is_taken matches p then matches else matches ++ p ∷ [])

unfoldable pub associate : IouTracker → List Detection → List Pair
unfolding all_pairs sort_pairs greedy
associate t detections = greedy (sort_pairs (all_pairs t.iou_threshold t.tracks detections)) []

-- The two comprehensions at its end.
unfoldable pub unmatched_dets : List Pair → ℕ → List Detection → List Detection
unmatched_dets matches i [] = []
unmatched_dets matches i (det ∷ rest) =
    let more = unmatched_dets matches (i + 1) rest in
    if listed (matched_dets matches) i then more else det ∷ more

unfoldable pub unmatched_tracks : List Pair → List ℕ → List ℕ
unmatched_tracks matches [] = []
unmatched_tracks matches (id ∷ rest) =
    let more = unmatched_tracks matches rest in
    if listed (matched_tracks matches) id then more else id ∷ more

abbrev pub new_record : ℕ → Detection → TrackRecord
new_record id det = record {
  track_id = id;
  box = det.box;
  vehicle_class = det.vehicle_class;
  centre = centroid det.box;
  velocity = record { dx = 0; dy = 0; dt = 1000 };
  hits = 1;
  misses = 0;
  age = 0;
}

unfoldable pub create_track : IouTracker → Detection → IouTracker
create_track t det = record t {
  tracks = Dict.set t.tracks t.next_id (new_record t.next_id det);
  next_id = t.next_id + 1;
}

-- `_update_track`.
abbrev pub updated_record : ℕ → Detection → TrackRecord → TrackRecord
updated_record dt det r =
    let centre = centroid det.box in
    record r {
      velocity =
          if ltb 0 dt
          then record {
            dx = difference centre.x r.centre.x;
            dy = difference centre.y r.centre.y;
            dt = dt;
          }
          else r.velocity;
      centre = centre;
      box = det.box;
      vehicle_class = det.vehicle_class;
      hits = r.hits + 1;
      misses = 0;
      age = r.age + 1;
    }

abbrev pub missed_record : TrackRecord → TrackRecord
missed_record r = record r { misses = r.misses + 1; age = r.age + 1 }

-- A change of the record under a key; the keys come from the tracks themselves.
unfoldable pub modify : (TrackRecord → TrackRecord) → ℕ → Dict ℕ TrackRecord → Dict ℕ TrackRecord
modify f id tracks = elim (Dict.get tracks id) [ none ↦ tracks | some r ↦ Dict.set tracks id (f r) ]

-- The three loops of `update`.
unfoldable pub update_matched : ℕ → List Pair → Dict ℕ TrackRecord → Dict ℕ TrackRecord
unfolding modify
update_matched dt [] tracks = tracks
update_matched dt (p ∷ ps) tracks =
    update_matched dt ps (modify (updated_record dt p.det) p.track_id tracks)

unfoldable pub create_all : IouTracker → List Detection → IouTracker
unfolding create_track
create_all t [] = t
create_all t (det ∷ rest) = create_all (create_track t det) rest

unfoldable pub miss_all : List ℕ → Dict ℕ TrackRecord → Dict ℕ TrackRecord
unfolding modify
miss_all [] tracks = tracks
miss_all (id ∷ rest) tracks = miss_all rest (modify missed_record id tracks)

-- `_evict`: the keys are distinct, so deleting the dead ones leaves the others in their places.
unfoldable pub evict : ℕ → Dict ℕ TrackRecord → Dict ℕ TrackRecord
evict max_misses [] = []
evict max_misses ((id, r) ∷ rest) =
    let kept = evict max_misses rest in if ltb max_misses r.misses then kept else (id, r) ∷ kept

abbrev pub to_track : IouTracker → Direction → TrackRecord → Track
to_track t lane r = record {
  track_id = r.track_id;
  vehicle_class = r.vehicle_class;
  box = r.box;
  velocity = r.velocity;
  lane = some lane;
  is_moving = speed_ge r.velocity t.moving_threshold;
  age_frames = r.age;
}

abbrev pub is_confirmed : IouTracker → TrackRecord → Bool
is_confirmed t r = leb t.min_hits r.hits && nat_beq r.misses 0

unfoldable pub confirmed : IouTracker → Direction → Dict ℕ TrackRecord → List Track
confirmed t lane [] = []
confirmed t lane ((id, r) ∷ rest) =
    let more = confirmed t lane rest in if is_confirmed t r then to_track t lane r ∷ more else more

unfoldable pub update : IouTracker → List Detection → ℕ → Direction → IouTracker × List Track
unfolding associate update_matched create_all miss_all evict confirmed
update t detections dt lane =
    let matches = associate t detections in
    let matched = update_matched dt matches t.tracks in
    let created =
      create_all (record t { tracks = matched }) (unmatched_dets matches 0 detections) in
    let missed = miss_all (unmatched_tracks matches (keys t.tracks)) created.tracks in
    let t' = record created { tracks = evict t.max_misses missed } in
    (t', confirmed t' lane t'.tracks)
