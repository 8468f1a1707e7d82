-- ===== src/Tests/Messaging.antt =====
-- Runs of the cache and the bus of libs/sentinel/messaging.
use sentinal_ai_control_room.Prelude.{
  ℕ, ◌+◌, ◌≡◌, refl, Bool, true, false, none, some, List, [], ◌∷◌, leb, nat_eq, string_eq, arith,
}
use sentinal_ai_control_room.Contracts.Enums.{AgentStatus}
use sentinal_ai_control_room.Contracts.Events.{agent_heartbeat, Delivered}
use sentinal_ai_control_room.Messaging.Cache
use sentinal_ai_control_room.Messaging.Cache.{IdempotencyCache, seen, add}
use sentinal_ai_control_room.Messaging.Window.{
  Op, see, put, apply, apply_all, IsBounded, apply-IsBounded, seen-add_window,
}
use sentinal_ai_control_room.Messaging.Retry.{default_retry, should_retry}
use sentinal_ai_control_room.Messaging.Bus.{
  EventEnvelope, Handler, Worker, InMemoryEventBus, crashed, publish, attempts, settle, process,
  run_worker,
}
use sentinal_ai_control_room.Messaging.Delivery.{Effect, process-Effect}
use sentinal_ai_control_room.Messaging.Redelivery.{
  process_again, IsAccounted, WorksThrough, run_worker-IsAccounted,
}
use sentinal_ai_control_room.Messaging.Fanout.{AllHanded, left_out, publish-AllHanded}

-- Three keys at most.
abbrev small : IdempotencyCache ℕ
small = record { max_size = 3; keys = 1 ∷ 2 ∷ 3 ∷ [] }

small-IsBounded : IsBounded small
small-IsBounded = omega arith

abbrev two_ops : List (Op ℕ)
two_ops = put 5 ∷ see 2 ∷ []

apply-IsBounded_example : IsBounded (apply small (put 4)) × ((apply small (put 4)).max_size ≡ 3)
apply-IsBounded_example = apply-IsBounded small (put 4) small-IsBounded

seen-add_window_example : (seen (apply_all (add small 4) two_ops) 4).1 ≡ true
seen-add_window_example = seen-add_window small 4 two_ops small-IsBounded (omega arith)

-- One more key and the window is over.
window_is_tight : (seen (apply_all (add small 4) (put 5 ∷ put 6 ∷ put 7 ∷ [])) 4).1 ≡ false
unfolding seen add apply apply_all Cache.contains Cache.remove
window_is_tight = refl

run : Unit {0}
unfolding process attempts settle should_retry seen add Cache.contains Cache.remove
run = tt

-- The state counts the calls of a handler that fails until the third.
abbrev flaky : Handler ℕ
flaky n event = (n + 1, leb 2 n)

abbrev broken : Handler ℕ
broken n event = (n + 1, false)

abbrev beat : Delivered
beat = record {
  event_id = "e1";
  event = record {
    source = "decision-agent";
    intersection_id = "i1";
    correlation_id = none;
    causation_id = none;
    payload = agent_heartbeat (record {
      agent_name = "decision-agent";
      status = AgentStatus.healthy;
      last_heartbeat = 0;
      details = [];
    });
  };
}

abbrev worker_of : Handler ℕ → Worker ℕ
worker_of h = record {
  subscription = record {
    consumer_name = "orchestrator";
    event_types = "agent.heartbeat" ∷ [];
    handler = h;
  };
  queue = [];
  cache = record { max_size = 3; keys = [] };
  dead_letters = [];
  successes = 0;
  retries = 0;
  dlqs = 0;
}

abbrev bus : InMemoryEventBus ℕ
bus = record {
  retry = default_retry;
  dead_letter_handler = none;
  cache_size = 3;
  workers = worker_of flaky ∷ worker_of broken ∷ [];
  running = true;
}

abbrev letter : EventEnvelope
letter = record { event = beat; idempotency_key = "e1"; retry_count = 0; headers = [] }

abbrev after_success : Worker ℕ
after_success = record (worker_of flaky) {
  cache = record { max_size = 3; keys = "e1" ∷ [] };
  successes = 1;
  retries = 2;
}

-- Two retries, and the third call returns.
flaky_succeeds : process bus (worker_of flaky) letter 0 ≡ some (after_success, 3, true)
unfolding run
flaky_succeeds = refl

-- Four calls, none of which returns.
broken_is_dead_lettered :
    process bus (worker_of broken) letter 0
    ≡ some
        (record (worker_of broken) { dead_letters = letter ∷ []; retries = 3; dlqs = 1 }, 4, true)
unfolding run
broken_is_dead_lettered = refl

process-Effect_example :
    (w' : Worker ℕ) × (n : ℕ) × (returned : Bool) × (process bus (worker_of flaky) letter 0
      ≡ some (w', n, returned))
    × Effect bus (worker_of flaky) letter 0 w' n returned
process-Effect_example = process-Effect bus (worker_of flaky) letter 0

process_again_example :
    (w' : Worker ℕ) × (process bus
        (record after_success { cache = apply_all after_success.cache (put "e2" ∷ []) })
        letter
        9
      ≡ some (w', 9, true))
    × (w'.dead_letters ≡ [])
process_again_example =
    process_again bus (worker_of flaky) letter 0 9 (put "e2" ∷ []) (omega arith) (omega arith)
      flaky_succeeds refl

worker-IsAccounted : IsAccounted bus (worker_of broken)
worker-IsAccounted = record { bounded = omega arith; dead = refl }

run_worker-IsAccounted_example :
    WorksThrough bus (some letter ∷ some letter ∷ none ∷ []) (worker_of broken) 0
run_worker-IsAccounted_example =
    run_worker-IsAccounted bus (some letter ∷ some letter ∷ none ∷ []) (worker_of broken) 0
      worker-IsAccounted

-- A dead-letter handler that raises ends the consumer, with the second message still queued.
abbrev raising_bus : InMemoryEventBus ℕ
raising_bus = record bus { dead_letter_handler = some (λ n envelope. (n + 100, false)) }

crashes :
    run_worker raising_bus (worker_of broken) (some letter ∷ some letter ∷ []) 0
    ≡ some (
      record (worker_of broken) {
        queue = some letter ∷ [];
        dead_letters = letter ∷ [];
        retries = 3;
        dlqs = 1;
      },
      104,
      crashed,
    )
unfolding run run_worker
crashes = refl

publish-AllHanded_example : AllHanded beat "e1" bus.workers (publish bus beat none).workers
publish-AllHanded_example = publish-AllHanded bus beat none "e1" left_out
