-- ===== src/Messaging/Delivery.antt =====
-- The delivery contract of libs/sentinel/messaging/inmemory.py: bounded retries, dead letters, and
-- at most one handling of a key within the cache's window.
use sentinal_ai_control_room.Prelude.{
  ℕ, zero, suc, ◌+◌, ◌<◌, ◌≡◌, refl, ◌∙◌, inl, inr, Bool, true, false, some, [], ◌∷◌, ◌++◌,
  string_eq, if◌then◌else◌, Bool-cases, arith,
}
use sentinal_ai_control_room.Contracts.Events.{Delivered}
use sentinal_ai_control_room.Messaging.Cache
use sentinal_ai_control_room.Messaging.Cache.{IdempotencyCache}
use sentinal_ai_control_room.Messaging.Retry.{RetryPolicy, should_retry}
use sentinal_ai_control_room.Messaging.Bus.{
  EventEnvelope, Handler, Worker, InMemoryEventBus, attempts, call_dlq, settle, process,
}

module _ {S : Type 0} where
  -- Calls of a handler until one returns, the first and `n` more at most: the state, whether one
  -- returned, and the number of calls beyond the first added to `attempt`.
  unfoldable pub tries : Handler S → Delivered → ℕ → ℕ → S → S × Bool × ℕ
  tries h e zero attempt s = ((h s e).0, (h s e).1, attempt)
  tries h e (suc n) attempt s =
      let rest = tries h e n (attempt + 1) (h s e).0 in
      if (h s e).1 then ((h s e).0, true, attempt) else rest

  attempts-tries :
      (r : RetryPolicy) (h : Handler S) (e : Delivered) (n fuel attempt : ℕ) (s : S)
      → attempt + n ≡ r.max_retries
      → n < fuel
      → attempts r h e fuel attempt s ≡ some (tries h e n attempt s)
  unfolding attempts tries should_retry
  attempts-tries r h e n zero attempt s p l = elim l [ ]
  attempts-tries r h e zero (suc fuel) attempt s p l = ground arith
  attempts-tries r h e (suc n) (suc fuel) attempt s p l =
      ground (arith, attempts-tries r h e n fuel (attempt + 1) (h s e).0)

  module _ (bus : InMemoryEventBus S) (worker : Worker S) (envelope : EventEnvelope) (s : S) where
    abbrev pub outcome : S × Bool × ℕ
    outcome = tries worker.subscription.handler envelope.event bus.retry.max_retries 0 s

    abbrev pub is_duplicate : Bool
    is_duplicate = (Cache.seen worker.cache envelope.idempotency_key).1

    pub process-settle :
        process bus worker envelope s
        ≡ some (
            if is_duplicate
            then (
              record worker { cache = (Cache.seen worker.cache envelope.idempotency_key).0 },
              s,
              true,
            )
            else settle bus worker envelope outcome)
    unfolding process
    process-settle = elim (Bool-cases is_duplicate) [
      | inl old ↦ rw old
      | inr new ↦ rw (
        new,
        attempts-tries bus.retry worker.subscription.handler envelope.event bus.retry.max_retries
            (suc bus.retry.max_retries) 0 s (omega arith) (omega arith),
      )
    ]

    -- What one message does to its consumer. A duplicate runs no handler and leaves the process as
    -- it was; otherwise the handler is called until it returns, `max_retries` times more than once
    -- at most: if a call returns the key is recorded, and if none does the message is the newest
    -- dead letter, its key is not recorded, and the dead-letter handler runs, if there is one. Only
    -- an exception of that handler leaves `_process` (false).
    pub data Effect (w' : Worker S) (s' : S) (returned : Bool) : Type 0 where
      deduplicated :
          is_duplicate ≡ true
          → s' ≡ s
          → returned ≡ true
          → w' ≡ record worker { cache = (Cache.seen worker.cache envelope.idempotency_key).0 }
          → Effect w' s' returned
      handled :
          is_duplicate ≡ false
          → outcome.1 ≡ true
          → s' ≡ outcome.0
          → returned ≡ true
          → w'.cache ≡ Cache.add worker.cache envelope.idempotency_key
          → w'.dead_letters ≡ worker.dead_letters
          → (w'.successes ≡ worker.successes + 1) × (w'.dlqs ≡ worker.dlqs)
          → w'.retries ≡ worker.retries + outcome.2
          → w'.subscription ≡ worker.subscription
          → Effect w' s' returned
      dead_lettered :
          is_duplicate ≡ false
          → outcome.1 ≡ false
          → s' ≡ (call_dlq bus.dead_letter_handler outcome.0 envelope).0
          → returned ≡ (call_dlq bus.dead_letter_handler outcome.0 envelope).1
          → w'.cache ≡ worker.cache
          → w'.dead_letters ≡ worker.dead_letters ++ envelope ∷ []
          → (w'.successes ≡ worker.successes) × (w'.dlqs ≡ worker.dlqs + 1)
          → w'.retries ≡ worker.retries + outcome.2
          → w'.subscription ≡ worker.subscription
          → Effect w' s' returned

    pub settle-Effect :
        is_duplicate ≡ false
        → let (w', s', returned) = settle bus worker envelope outcome in Effect w' s' returned
    unfolding settle
    settle-Effect new = elim (Bool-cases outcome.1) [
      | inl good ↦
          handled new good (ground arith) (ground arith) (ground arith) (ground arith)
            (ground arith) (ground arith) (ground arith)
      | inr bad ↦
          dead_lettered new bad (ground arith) (ground arith) (ground arith) (ground arith)
            (ground arith) (ground arith) (ground arith)
    ]

    -- `_process` always comes to an end, with one of the three effects; it ends by an exception
    -- only where the message is dead-lettered and the dead-letter handler raises.
    pub process-Effect :
        (w' : Worker S) × (s' : S) × (returned : Bool) × (process bus worker envelope s
          ≡ some (w', s', returned))
        × Effect w' s' returned
    process-Effect = elim (Bool-cases is_duplicate) [
      | inl old ↦ (
        record worker { cache = (Cache.seen worker.cache envelope.idempotency_key).0 },
        s,
        true,
        process-settle ∙ rw old,
        deduplicated old refl refl refl,
      )
      | inr new ↦
          let (w', s', returned) = settle bus worker envelope outcome in
          (w', s', returned, process-settle ∙ rw new, settle-Effect new)
    ]
