-- ===== src/Memory/Agent.antt =====
-- `TrafficMemoryAgent` of libs/sentinel/memory/agent.py, over the in-memory repository.
use sentinal_ai_control_room.Prelude.{
  ℕ, ◌+◌, Option, none, some, List, [], ◌∷◌, ◌++◌, String, leb, if◌then◌else◌,
}
use sentinal_ai_control_room.Config.{MemorySettings}
use sentinal_ai_control_room.Prelude.Results.{Result, ok, ◌>>=◌}
use sentinal_ai_control_room.Contracts.Values.{IntersectionState, HistoricalContext}
use sentinal_ai_control_room.Contracts.Events.{
  Payload, state_updated, baseline_updated, DomainEvent,
}
use sentinal_ai_control_room.Memory.Repository
use sentinal_ai_control_room.Memory.Repository.{InMemoryStateHistoryRepository, append, baseline}

pub record TrafficMemoryAgent : Type 0 where
  pub repository : InMemoryStateHistoryRepository
  pub updates_since_publish : ℕ
  pub published : List DomainEvent

module _ (s : MemorySettings) (intersection_id : String) where
  unfoldable pub init : Result TrafficMemoryAgent
  init = do
    repository ← Repository.init s.window_size
    ok (record { repository = repository; updates_since_publish = 0; published = [] })

  abbrev pub current_baseline : TrafficMemoryAgent → Option HistoricalContext
  current_baseline a = baseline a.repository intersection_id

  abbrev pub baseline_event : HistoricalContext → DomainEvent
  baseline_event b = record {
    source = "traffic-memory";
    intersection_id = intersection_id;
    correlation_id = none;
    causation_id = none;
    payload = baseline_updated b;
  }

  unfoldable pub publish_baseline : TrafficMemoryAgent → TrafficMemoryAgent
  publish_baseline a = elim (current_baseline a) [
    | none ↦ a
    | some b ↦ record a { published = a.published ++ baseline_event b ∷ [] }
  ]

  unfoldable pub on_state : TrafficMemoryAgent → IntersectionState → TrafficMemoryAgent
  unfolding publish_baseline
  on_state a state =
      let repository = append a.repository state in
      let updates = a.updates_since_publish + 1 in
      if leb s.baseline_publish_every updates
      then publish_baseline (record a { repository = repository; updates_since_publish = 0 })
      else record a { repository = repository; updates_since_publish = updates }

  unfoldable pub receive : TrafficMemoryAgent → Payload → TrafficMemoryAgent
  unfolding on_state
  receive a (state_updated state) = on_state a state
  receive a _ = a
