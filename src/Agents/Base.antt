-- ===== src/Agents/Base.antt =====
-- `BaseAgent` of libs/sentinel/agents/base.py: its life and its health. The task of the heartbeat loop is
-- the sequence of its wake-ups, each at the time that the clock shows; there is a task from a start
-- to the next stop. The gauge is left out.
use sentinal_ai_control_room.Prelude.{
  ℕ, Bool, true, false, not, ◌&&◌, none, List, [], ◌∷◌, ◌++◌, String, ltb, if◌then◌else◌, string_eq,
}
use sentinal_ai_control_room.Prelude.Dict
use sentinal_ai_control_room.Prelude.Dict.{Dict}
use sentinal_ai_control_room.Contracts.Enums.{AgentStatus, healthy, stopped}
use sentinal_ai_control_room.Contracts.Values.{AgentHealth}
use sentinal_ai_control_room.Contracts.Events.{agent_heartbeat, DomainEvent}

pub record BaseAgent : Type 0 where
  pub status : AgentStatus
  pub details : Dict String String
  pub has_task : Bool
  pub published : List DomainEvent

abbrev pub init : BaseAgent
init = record { status = stopped; details = []; has_task = false; published = [] }

-- `dict.update`
unfoldable pub update_details : Dict String String → Dict String String → Dict String String
update_details details [] = details
update_details details ((key, value) ∷ rest) = update_details (Dict.set details key value) rest

unfoldable pub set_status : AgentStatus → Dict String String → BaseAgent → BaseAgent
unfolding update_details
set_status status details a = record a {
  status = status;
  details = update_details a.details details;
}

-- What happens to an agent: its calls, and the wake-ups of its loop.
pub data Input : Type 0 where
  starts : Input
  stops : Input
  sets : AgentStatus → Dict String String → Input
  wakes : ℕ → Input

module _ (name : String) (intersection_id : String) (heartbeat_interval_s : ℕ) where
  unfoldable pub start : BaseAgent → BaseAgent
  unfolding set_status
  start a =
      let b = set_status healthy [] a in
      if ltb 0 heartbeat_interval_s && not b.has_task then record b { has_task = true } else b

  unfoldable pub stop : BaseAgent → BaseAgent
  unfolding set_status
  stop a = set_status stopped [] (if a.has_task then record a { has_task = false } else a)

  abbrev pub health : ℕ → BaseAgent → AgentHealth
  health now a = record {
    agent_name = name;
    status = a.status;
    last_heartbeat = now;
    details = a.details;
  }

  abbrev pub heartbeat_event : ℕ → BaseAgent → DomainEvent
  heartbeat_event now a = record {
    source = name;
    intersection_id = intersection_id;
    correlation_id = none;
    causation_id = none;
    payload = agent_heartbeat (health now a);
  }

  unfoldable pub emit_heartbeat : ℕ → BaseAgent → BaseAgent
  emit_heartbeat now a = record a { published = a.published ++ heartbeat_event now a ∷ [] }

  -- A turn of `_heartbeat_loop`, of a task that has not been cancelled.
  unfoldable pub wake : ℕ → BaseAgent → BaseAgent
  unfolding emit_heartbeat
  wake now a = if a.has_task then emit_heartbeat now a else a

  unfoldable pub handle : Input → BaseAgent → BaseAgent
  unfolding start stop set_status wake
  handle starts a = start a
  handle stops a = stop a
  handle (sets status details) a = set_status status details a
  handle (wakes now) a = wake now a

  unfoldable pub live : List Input → BaseAgent → BaseAgent
  unfolding handle
  live [] a = a
  live (i ∷ is) a = live is (handle i a)
