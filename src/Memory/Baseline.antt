-- ===== src/Memory/Baseline.antt =====
-- What the baseline of libs/sentinel/memory/repository.py says.
use sentinal_ai_control_room.Prelude.{
  ◌+◌, ◌/◌, ◌≡◌, refl, ◌∙◌, ap, Option, none, some, List, [], ◌∷◌, ◌++◌, map, String, if◌then◌else◌,
  ◌==◌, length, sum, arith,
}
use sentinal_ai_control_room.Prelude.Dict
use sentinal_ai_control_room.Prelude.Dict.{Dict, get-set}
use sentinal_ai_control_room.Config.{milli}
use sentinal_ai_control_room.Contracts.Enums.{Direction, direction_eq}
use sentinal_ai_control_room.Contracts.Values.{
  LaneState, IntersectionState, LaneBaseline, HistoricalContext, baseline_for,
}
use sentinal_ai_control_room.Memory.Repository.{
  InMemoryStateHistoryRepository, Totals, more, add_lanes, add_states, lane_baseline, averages,
  window_of, baseline, baseline_of,
}

-- The lanes of a snapshot that are listed under a direction, and those of a window of snapshots.
abbrev pub lanes_at : Direction → Dict Direction LaneState → List LaneState
lanes_at d [] = []
lanes_at d ((e, lane) ∷ rest) = if e == d then lane ∷ lanes_at d rest else lanes_at d rest

abbrev pub samples : Direction → List IntersectionState → List LaneState
samples d [] = []
samples d (state ∷ rest) = lanes_at d state.lanes ++ samples d rest

tally : Option Totals → List LaneState → Option Totals
tally t [] = t
tally t (lane ∷ rest) = tally (some (more t lane)) rest

tally-append :
    (t : Option Totals) (xs ys : List LaneState) → tally t (xs ++ ys) ≡ tally (tally t xs) ys
unfolding tally
tally-append t [] ys = refl
tally-append t (x ∷ xs) ys = tally-append (some (more t x)) xs ys

get-add_lanes :
    (t : Dict Direction Totals) (lanes : Dict Direction LaneState) (d : Direction)
    → Dict.get (add_lanes t lanes) d ≡ tally (Dict.get t d) (lanes_at d lanes)
unfolding add_lanes tally
get-add_lanes t [] d = refl
get-add_lanes t ((e, lane) ∷ rest) d =
    let t' = more (Dict.get t e) lane in
    let ih = get-add_lanes (Dict.set t e t') rest d in
    ground (arith, ih, get-set t e d t', direction_eq.test_iff e d)

get-add_states :
    (t : Dict Direction Totals) (states : List IntersectionState) (d : Direction)
    → Dict.get (add_states t states) d ≡ tally (Dict.get t d) (samples d states)
unfolding add_states tally
get-add_states t [] d = refl
get-add_states t (state ∷ rest) d = rw (
  get-add_states (add_lanes t state.lanes) rest d,
  get-add_lanes t state.lanes d,
  tally-append (Dict.get t d) (lanes_at d state.lanes) (samples d rest),
)

-- The averages of a direction over its samples, and their number.
abbrev pub average : Direction → List LaneState → Option LaneBaseline
average d [] = none
average d (lane ∷ lanes) = some (record {
  direction = d;
  avg_queue_veh =
      milli (sum (map (λ (l : LaneState). l.vehicle_count) (lane ∷ lanes))) / length (lane ∷ lanes);
  avg_wait_s = sum (map (λ (l : LaneState). l.avg_wait_s) (lane ∷ lanes)) / length (lane ∷ lanes);
  sample_count = length (lane ∷ lanes);
})

abbrev averaged : Direction → Option Totals → Option LaneBaseline
averaged d none = none
averaged d (some t) = some (lane_baseline d t)

get-averages :
    (t : Dict Direction Totals) (d : Direction)
    → Dict.get (averages t) d ≡ averaged d (Dict.get t d)
unfolding averages Dict.get
get-averages [] d = refl
get-averages ((e, x) ∷ rest) d = ground (arith, get-averages rest d, direction_eq.test_iff e d)

tally-some :
    (t : Totals) (lanes : List LaneState)
    → tally (some t) lanes
      ≡ some (record {
        queue_sum = t.queue_sum + sum (map (λ (l : LaneState). l.vehicle_count) lanes);
        wait_sum = t.wait_sum + sum (map (λ (l : LaneState). l.avg_wait_s) lanes);
        n = t.n + length lanes;
      })
unfolding tally
tally-some t [] = ground arith
tally-some t (lane ∷ rest) = rw (tally-some (more (some t) lane) rest) (ground arith)

averaged-tally :
    (d : Direction) (lanes : List LaneState) → averaged d (tally none lanes) ≡ average d lanes
unfolding tally
averaged-tally d [] = refl
averaged-tally d (lane ∷ rest) =
    let n : 1 + length rest ≡ length (lane ∷ rest) = omega arith in
    rw (tally-some (more none lane) rest, n)

-- The baseline of a lane in what the repository answers.
abbrev pub lane_in : Option HistoricalContext → Direction → Option LaneBaseline
lane_in none d = none
lane_in (some b) d = baseline_for b d

lane_in-baseline_of :
    (id : String) (window : List IntersectionState) (d : Direction)
    → lane_in (baseline_of id window) d ≡ average d (samples d window)
unfolding add_states averages Dict.get baseline_for
lane_in-baseline_of id [] d = refl
lane_in-baseline_of id (state ∷ rest) d =
    get-averages (add_states [] (state ∷ rest)) d
    ∙ ap (averaged d) (get-add_states [] (state ∷ rest) d)
    ∙ averaged-tally d (samples d (state ∷ rest))

-- The baseline of a direction is the average over all lanes that the kept snapshots list under it,
-- with their number, and there is none for a direction that they do not list.
pub lane_in-baseline :
    (r : InMemoryStateHistoryRepository) (id : String) (d : Direction)
    → lane_in (baseline r id) d ≡ average d (samples d (window_of r id))
unfolding baseline
lane_in-baseline r id d = lane_in-baseline_of id (window_of r id) d
