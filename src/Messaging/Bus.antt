-- ===== src/Messaging/Bus.antt =====
-- `EventEnvelope` and `Subscription` of libs/sentinel/messaging/bus.py, and `InMemoryEventBus` of
-- libs/sentinel/messaging/inmemory.py. A handler changes the state `S` of the process and says
-- whether it returned (true) or raised (false), and so does the dead-letter handler. Sleeping between attempts changes no state.
use sentinal_ai_control_room.Prelude.{
  ℕ, zero, suc, ◌+◌, Bool, true, false, ◌||◌, Option, none, some, List, [], ◌∷◌, ◌++◌, map, String,
  ◌==◌, string_eq, if◌then◌else◌,
}
use sentinal_ai_control_room.Prelude.Dict.{Dict}
use sentinal_ai_control_room.Prelude.Results.{Result, ok, ◌>>=◌}
use sentinal_ai_control_room.Contracts.Events.{Delivered, event_type}
use sentinal_ai_control_room.Messaging.Cache
use sentinal_ai_control_room.Messaging.Cache.{IdempotencyCache}
use sentinal_ai_control_room.Messaging.Retry.{RetryPolicy, should_retry}

pub record EventEnvelope : Type 0 where
  pub event : Delivered
  pub idempotency_key : String
  pub retry_count : ℕ
  pub headers : Dict String String

-- The constructor with `__post_init__`: an empty key is replaced by the event's id.
unfoldable pub new_envelope : Delivered → String → EventEnvelope
new_envelope event key = record {
  event = event;
  idempotency_key = if key == "" then event.event_id else key;
  retry_count = 0;
  headers = [];
}

-- The handler of a subscription.
abbrev pub Handler : Type 0 → Type 0
Handler S = S → Delivered → S × Bool

pub record Subscription (S : Type 0) : Type 0 where
  pub consumer_name : String
  pub event_types : List String
  pub handler : Handler S

unfoldable pub mentions : List String → String → Bool
mentions [] t = false
mentions (u ∷ types) t = (u == t) || mentions types t

-- `Subscription.matches`.
unfoldable pub matches : List String → String → Bool
unfolding mentions
matches event_types t = mentions event_types "*" || mentions event_types t

-- `_Worker`; `none` in the queue is the shutdown sentinel. `successes`, `retries` and `dlqs` are the
-- consumer's counters among `EVENTS_CONSUMED`.
pub record Worker (S : Type 0) : Type 0 where
  pub subscription : Subscription S
  pub queue : List (Option EventEnvelope)
  pub cache : IdempotencyCache String
  pub dead_letters : List EventEnvelope
  pub successes : ℕ
  pub retries : ℕ
  pub dlqs : ℕ

pub record InMemoryEventBus (S : Type 0) : Type 0 where
  pub retry : RetryPolicy
  pub dead_letter_handler : Option (S → EventEnvelope → S × Bool)
  pub cache_size : ℕ
  pub workers : List (Worker S)
  pub running : Bool

-- Where a consumer's task is after what is queued: waiting for more, returned, or ended by an
-- exception.
pub data End : Type 0 where
  idle shut_down crashed : End

-- `idempotency_key or event.event_id`.
abbrev pub key_or_id : Option String → Delivered → String
key_or_id none event = event.event_id
key_or_id (some key) event = if key == "" then event.event_id else key

module _ {S : Type 0} where
  unfoldable pub subscribe :
      InMemoryEventBus S → List String → Handler S → String → Result (InMemoryEventBus S)
  subscribe bus event_types handler consumer_name = do
    cache ← Cache.init bus.cache_size
    ok (record bus {
      workers =
          bus.workers
          ++ record {
            subscription = record {
              consumer_name = consumer_name;
              event_types = event_types;
              handler = handler;
            };
            queue = [];
            cache = cache;
            dead_letters = [];
            successes = 0;
            retries = 0;
            dlqs = 0;
          }
            ∷ [];
    })

  -- The body of the loop of `publish`.
  unfoldable pub offer : EventEnvelope → Worker S → Worker S
  offer envelope worker =
      if matches worker.subscription.event_types (event_type envelope.event.event.payload)
      then record worker {
        queue = worker.queue ++ some (new_envelope envelope.event envelope.idempotency_key) ∷ [];
      }
      else worker

  unfoldable pub publish : InMemoryEventBus S → Delivered → Option String → InMemoryEventBus S
  unfolding offer
  publish bus event idempotency_key =
      let envelope = new_envelope event (key_or_id idempotency_key event) in
      record bus { workers = map (offer envelope) bus.workers }

  -- The `while True` of `_process`, on fuel: the state, whether a call returned, and the retries.
  unfoldable pub attempts : RetryPolicy → Handler S → Delivered → ℕ → ℕ → S → Option (S × Bool × ℕ)
  attempts r handler event zero attempt s = none
  attempts r handler event (suc fuel) attempt s =
      let (s', returned) = handler s event in
      let rest = attempts r handler event fuel (attempt + 1) s' in
      if returned
      then some (s', true, attempt)
      else if should_retry r attempt
      then rest
      else some (s', false, attempt)

  -- `self._dlq_handler`, whose exception nothing catches.
  abbrev pub call_dlq : Option (S → EventEnvelope → S × Bool) → S → EventEnvelope → S × Bool
  call_dlq none s envelope = (s, true)
  call_dlq (some f) s envelope = f s envelope

  -- What follows the loop: the `else` of the `try`, or `_dead_letter`. The Boolean is false where an
  -- exception leaves `_process`.
  unfoldable pub settle :
      InMemoryEventBus S → Worker S → EventEnvelope → S × Bool × ℕ → Worker S × S × Bool
  settle bus worker envelope (s, returned, attempt) =
      if returned
      then (
        record worker {
          cache = Cache.add worker.cache envelope.idempotency_key;
          successes = worker.successes + 1;
          retries = worker.retries + attempt;
        },
        s,
        true,
      )
      else (
        record worker {
          dead_letters = worker.dead_letters ++ envelope ∷ [];
          retries = worker.retries + attempt;
          dlqs = worker.dlqs + 1;
        },
        (call_dlq bus.dead_letter_handler s envelope).0,
        (call_dlq bus.dead_letter_handler s envelope).1,
      )

  -- `_process`; the fuel is one more than the retries that the policy allows.
  unfoldable pub process :
      InMemoryEventBus S → Worker S → EventEnvelope → S → Option (Worker S × S × Bool)
  process bus worker envelope s =
      let (cache, duplicate) = Cache.seen worker.cache envelope.idempotency_key in
      if duplicate
      then some (record worker { cache = cache }, s, true)
      else elim (attempts bus.retry worker.subscription.handler envelope.event
          (suc bus.retry.max_retries) 0 s) [
            | none ↦ none
            | some outcome ↦ some (settle bus worker envelope outcome)
          ]

  -- `_run_worker` over the items that are queued: up to the sentinel, or to an exception that leaves
  -- `_process` and ends the task, with the rest still queued.
  unfoldable pub run_worker :
      InMemoryEventBus S → Worker S → List (Option EventEnvelope) → S → Option (Worker S × S × End)
  run_worker bus worker [] s = some (record worker { queue = [] }, s, idle)
  run_worker bus worker (none ∷ items) s = some (record worker { queue = items }, s, shut_down)
  run_worker bus worker (some envelope ∷ items) s = elim (process bus worker envelope s) [
    | none ↦ none
    | some (worker', s', true) ↦ run_worker bus worker' items s'
    | some (worker', s', false) ↦ some (record worker' { queue = items }, s', crashed)
  ]
