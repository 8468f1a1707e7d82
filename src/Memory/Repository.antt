-- ===== src/Memory/Repository.antt =====
-- `InMemoryStateHistoryRepository` of libs/sentinel/memory/repository.py. An average is rounded down
-- to a thousandth.
use sentinal_ai_control_room.Prelude.{
  ℕ, ◌+◌, ◌-◌, ◌/◌, Option, none, some, List, [], ◌∷◌, ◌++◌, String, string_eq, ltb, nat_beq,
  if◌then◌else◌, length, drop,
}
use sentinal_ai_control_room.Prelude.Dict
use sentinal_ai_control_room.Prelude.Dict.{Dict}
use sentinal_ai_control_room.Prelude.Results.{Result, ok, raise, value_error}
use sentinal_ai_control_room.Config.{milli}
use sentinal_ai_control_room.Contracts.Enums.{Direction, direction_eq}
use sentinal_ai_control_room.Contracts.Values.{
  LaneState, IntersectionState, LaneBaseline, HistoricalContext,
}

pub record InMemoryStateHistoryRepository : Type 0 where
  pub window_size : ℕ
  pub history : Dict String (List IntersectionState)

unfoldable pub init : ℕ → Result InMemoryStateHistoryRepository
init window_size =
    if ltb window_size 1
    then raise value_error
    else ok (record { window_size = window_size; history = [] })

abbrev pub tail {ℓ} : {A : Type ℓ} → List A → List A
tail [] = []
tail (x ∷ xs) = xs

-- `append` of a `deque` with a `maxlen`, which is positive.
unfoldable pub push {ℓ} : {A : Type ℓ} → ℕ → List A → A → List A
push maxlen window x =
    let longer = window ++ x ∷ [] in if ltb maxlen (length longer) then tail longer else longer

-- The window of an intersection; `[]` for one that has none yet.
abbrev pub window_of : InMemoryStateHistoryRepository → String → List IntersectionState
window_of r id = elim (Dict.get r.history id) [ none ↦ [] | some window ↦ window ]

unfoldable pub append :
    InMemoryStateHistoryRepository → IntersectionState → InMemoryStateHistoryRepository
append r state = record r {
  history =
      Dict.set r.history state.intersection_id
        (push r.window_size (window_of r state.intersection_id) state);
}

-- `items[-limit:]`, which is the whole list for a limit of 0.
abbrev pub from_end {ℓ} : {A : Type ℓ} → ℕ → List A → List A
from_end limit items = if nat_beq limit 0 then items else drop (length items - limit) items

unfoldable pub recent : InMemoryStateHistoryRepository → String → Option ℕ → List IntersectionState
recent r id none = window_of r id
recent r id (some limit) = from_end limit (window_of r id)

unfoldable pub count : InMemoryStateHistoryRepository → String → ℕ
count r id = length (window_of r id)

-- The sums of a direction: of vehicles, of waits, and of samples.
pub record Totals : Type 0 where
  pub queue_sum : ℕ
  pub wait_sum : ℕ
  pub n : ℕ

abbrev pub more : Option Totals → LaneState → Totals
more none lane = record { queue_sum = lane.vehicle_count; wait_sum = lane.avg_wait_s; n = 1 }
more (some t) lane = record {
  queue_sum = t.queue_sum + lane.vehicle_count;
  wait_sum = t.wait_sum + lane.avg_wait_s;
  n = t.n + 1;
}

-- The inner loop of `baseline`, over the lanes of a snapshot.
unfoldable pub add_lanes : Dict Direction Totals → Dict Direction LaneState → Dict Direction Totals
add_lanes totals [] = totals
add_lanes totals ((direction, lane) ∷ rest) =
    add_lanes (Dict.set totals direction (more (Dict.get totals direction) lane)) rest

-- The outer loop, over the window.
unfoldable pub add_states : Dict Direction Totals → List IntersectionState → Dict Direction Totals
unfolding add_lanes
add_states totals [] = totals
add_states totals (state ∷ rest) = add_states (add_lanes totals state.lanes) rest

abbrev pub lane_baseline : Direction → Totals → LaneBaseline
lane_baseline direction t = record {
  direction = direction;
  avg_queue_veh = milli t.queue_sum / t.n;
  avg_wait_s = t.wait_sum / t.n;
  sample_count = t.n;
}

unfoldable pub averages : Dict Direction Totals → Dict Direction LaneBaseline
averages [] = []
averages ((direction, t) ∷ rest) = (direction, lane_baseline direction t) ∷ averages rest

abbrev pub baseline_of : String → List IntersectionState → Option HistoricalContext
baseline_of id [] = none
baseline_of id (state ∷ rest) = some (record {
  intersection_id = id;
  window_size = length (state ∷ rest);
  lanes = averages (add_states [] (state ∷ rest));
})

unfoldable pub baseline : InMemoryStateHistoryRepository → String → Option HistoricalContext
unfolding add_states averages
baseline r id = baseline_of id (window_of r id)
