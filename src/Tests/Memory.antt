-- ===== src/Tests/Memory.antt =====
-- Runs of the repository and the agent of libs/sentinel/memory with a window of two snapshots.
use sentinal_ai_control_room.Prelude.{
  ℕ, ◌*◌, ◌≡◌, refl, false, none, some, List, [], ◌∷◌, String, string_eq,
}
use sentinal_ai_control_room.Prelude.Dict
use sentinal_ai_control_room.Prelude.Results.{ok}
use sentinal_ai_control_room.Config.{MemorySettings}
use sentinal_ai_control_room.Contracts.Enums.{
  north, ns_green, DensityLevel, SystemMode, direction_eq,
}
use sentinal_ai_control_room.Contracts.Values.{LaneState, IntersectionState}
use sentinal_ai_control_room.Memory.Repository
use sentinal_ai_control_room.Memory.Repository.{
  InMemoryStateHistoryRepository, push, append, recent, window_of, baseline,
}
use sentinal_ai_control_room.Memory.Agent
use sentinal_ai_control_room.Memory.Agent.{TrafficMemoryAgent}
use sentinal_ai_control_room.Memory.Window.{append_all, recent-append_all}
use sentinal_ai_control_room.Memory.Baseline.{lane_in, lane_in-baseline}

abbrev lane : ℕ → LaneState
lane n = record {
  direction = north;
  vehicle_count = n;
  moving_count = 0;
  stopped_count = n;
  queue_length_m = n * 7000;
  avg_wait_s = n * 2000;
  occupancy_pct = 0;
  density = DensityLevel.free;
  has_emergency_vehicle = false;
  pedestrian_waiting = false;
}

abbrev state : String → ℕ → IntersectionState
state id n = record {
  intersection_id = id;
  timestamp = n * 1000;
  lanes = (north, lane n) ∷ [];
  current_phase = ns_green;
  phase_elapsed_s = 10000;
  mode = SystemMode.ai;
  perception_confidence = 1000;
}

abbrev empty : InMemoryStateHistoryRepository
empty = record { window_size = 2; history = [] }

abbrev mixed : List IntersectionState
mixed = state "i1" 1 ∷ state "i2" 7 ∷ state "i1" 2 ∷ state "i1" 3 ∷ []

made : Repository.init 2 ≡ ok empty
unfolding Repository.init
made = refl

recent-append_all_example :
    recent (append_all empty mixed) "i1" none ≡ state "i1" 2 ∷ state "i1" 3 ∷ []
recent-append_all_example = recent-append_all 2 empty mixed "i1" made

abbrev kept : InMemoryStateHistoryRepository
kept = record { window_size = 2; history = ("i1", state "i1" 2 ∷ state "i1" 3 ∷ []) ∷ [] }

-- Two and a half vehicles and five seconds, over two samples.
lane_in-baseline_example :
    lane_in (baseline kept "i1") north
    ≡ some (record { direction = north; avg_queue_veh = 2500; avg_wait_s = 5000; sample_count = 2 })
unfolding Dict.get
lane_in-baseline_example = lane_in-baseline kept "i1" north

abbrev settings : MemorySettings
settings = record { window_size = 2; baseline_publish_every = 2 }

abbrev agent : TrafficMemoryAgent
agent = record { repository = empty; updates_since_publish = 0; published = [] }

agent_made : Agent.init settings "i1" ≡ ok agent
unfolding Agent.init Repository.init
agent_made = refl

abbrev own : List IntersectionState
own = state "i1" 1 ∷ state "i1" 2 ∷ state "i1" 3 ∷ []
