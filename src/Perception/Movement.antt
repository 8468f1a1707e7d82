-- ===== src/Perception/Movement.antt =====
-- `MovementAnalyzer` of libs/sentinel/perception/movement.py.
use sentinal_ai_control_room.Prelude.{
  ℕ, ◌+◌, ◌*◌, Bool, true, false, Option, none, some, List, [], ◌∷◌, map, ltb, nat_beq, nat_eq,
  if◌then◌else◌,
}
use sentinal_ai_control_room.Prelude.Dict
use sentinal_ai_control_room.Prelude.Dict.{Dict, keys, listed}
use sentinal_ai_control_room.Prelude.Results.{Result, ok, raise, value_error}
use sentinal_ai_control_room.Perception.Geometry.{Velocity, Track, speed_ge}

pub record MovementInfo : Type 0 where
  pub track_id : ℕ
  pub is_moving : Bool
  pub stopped_s : ℕ
  pub speed : Velocity

pub record MovementAnalyzer : Type 0 where
  pub stop_threshold : ℕ
  pub resume_threshold : ℕ
  pub is_moving : Dict ℕ Bool
  pub stopped_s : Dict ℕ ℕ

-- `resume_speed_threshold or stop_speed_threshold * 2.0`: a threshold of 0 counts as none.
abbrev pub resume_or : Option ℕ → ℕ → ℕ
resume_or none stop = stop * 2
resume_or (some resume) stop = if nat_beq resume 0 then stop * 2 else resume

abbrev pub resume_ok : Option ℕ → ℕ → Bool
resume_ok none stop = true
resume_ok (some resume) stop = if ltb resume stop then false else true

unfoldable pub init : ℕ → Option ℕ → Result MovementAnalyzer
init stop resume =
    if resume_ok resume stop
    then ok (record {
      stop_threshold = stop;
      resume_threshold = resume_or resume stop;
      is_moving = [];
      stopped_s = [];
    })
    else raise value_error

abbrev pub reset : MovementAnalyzer → MovementAnalyzer
reset a = record a { is_moving = []; stopped_s = [] }

-- The loop of `_evict`, over the keys as they are when it starts.
unfoldable pub evict_keys : List ℕ → List ℕ → MovementAnalyzer → MovementAnalyzer
evict_keys present [] a = a
evict_keys present (id ∷ ids) a = evict_keys present ids (
    if listed present id
    then a
    else record a { is_moving = Dict.pop a.is_moving id; stopped_s = Dict.pop a.stopped_s id })

unfoldable pub evict : List ℕ → MovementAnalyzer → MovementAnalyzer
unfolding evict_keys
evict present a = evict_keys present (keys a.is_moving) a

-- `dict.get` with a default.
abbrev pub or_else {ℓ} : {A : Type ℓ} → Option A → A → A
or_else none x = x
or_else (some y) x = y

-- `_classify` and `_accrue`, from what the dictionaries have of the track.
abbrev pub classified : MovementAnalyzer → Option Bool → Velocity → Bool
classified a was speed =
    speed_ge speed (if or_else was true then a.stop_threshold else a.resume_threshold)

abbrev pub accrued : Bool → Option ℕ → ℕ → ℕ
accrued moving stopped dt = if moving then 0 else or_else stopped 0 + dt

abbrev pub info_of : MovementAnalyzer → Track → ℕ → MovementInfo
info_of a track dt =
    let moving = classified a (Dict.get a.is_moving track.track_id) track.velocity in
    record {
      track_id = track.track_id;
      is_moving = moving;
      stopped_s = accrued moving (Dict.get a.stopped_s track.track_id) dt;
      speed = track.velocity;
    }

-- The body of the loop in `update`.
unfoldable pub observe : MovementAnalyzer → Track → ℕ → MovementAnalyzer
observe a track dt =
    let info = info_of a track dt in
    record a {
      is_moving = Dict.set a.is_moving track.track_id info.is_moving;
      stopped_s = Dict.set a.stopped_s track.track_id info.stopped_s;
    }

unfoldable pub observe_all :
    MovementAnalyzer → List Track → ℕ → Dict ℕ MovementInfo → MovementAnalyzer × Dict ℕ MovementInfo
unfolding observe
observe_all a [] dt infos = (a, infos)
observe_all a (track ∷ rest) dt infos =
    observe_all (observe a track dt) rest dt (Dict.set infos track.track_id (info_of a track dt))

abbrev pub ids : List Track → List ℕ
ids = map (λ (t : Track). t.track_id)

unfoldable pub update : MovementAnalyzer → List Track → ℕ → MovementAnalyzer × Dict ℕ MovementInfo
unfolding evict observe_all
update a tracks dt = observe_all (evict (ids tracks) a) tracks dt []
