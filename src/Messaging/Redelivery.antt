-- ===== src/Messaging/Redelivery.antt =====
-- What a consumer of libs/sentinel/messaging/inmemory.py does with a message that comes again, and
-- with all that is queued for it.
use sentinal_ai_control_room.Prelude.{
  ℕ, zero, suc, ◌+◌, ◌*◌, ◌≤◌, ◌<◌, ◌≡◌, refl, ◌∙◌, ap, inl, inr, Bool, true, false, Option, none,
  some, List, [], ◌∷◌, String, string_eq, length, length-append, Bool-cases, arith,
}
use sentinal_ai_control_room.Contracts.Events.{Delivered}
use sentinal_ai_control_room.Messaging.Cache
use sentinal_ai_control_room.Messaging.Cache.{IdempotencyCache}
use sentinal_ai_control_room.Messaging.Window.{
  Op, see, put, apply, apply_all, apply-IsBounded, IsBounded, seen-add_window, seen-seen_window,
}
use sentinal_ai_control_room.Messaging.Bus.{
  EventEnvelope, Handler, Worker, InMemoryEventBus, End, idle, shut_down, crashed, settle, process,
  run_worker,
}
use sentinal_ai_control_room.Messaging.Delivery.{
  tries, outcome, is_duplicate, process-settle, Effect, deduplicated, handled, dead_lettered,
  settle-Effect, process-Effect,
}

module _ {S : Type 0} where
  -- The handler is called once, and again for each retry: at most `n` times, and exactly `n` if no
  -- call returns.
  pub tries_bound :
      (h : Handler S) (e : Delivered) (n attempt : ℕ) (s : S)
      → ((tries h e n attempt s).2 ≤ attempt + n)
        × ((tries h e n attempt s).1 ≡ false → (tries h e n attempt s).2 ≡ attempt + n)
  unfolding tries
  tries_bound h e zero attempt s = ground arith
  tries_bound h e (suc n) attempt s = ground (arith, tries_bound h e n (attempt + 1) (h s e).0)

  module _ (bus : InMemoryEventBus S) where
    recognised :
        (worker : Worker S) (envelope : EventEnvelope) (s : S) (ops : List (Op String))
        {w' : Worker S} {s' : S} {returned : Bool}
        → IsBounded worker.cache
        → length ops < worker.cache.max_size
        → Effect bus worker envelope s w' s' returned
        → w'.dlqs ≡ worker.dlqs
        → (Cache.seen (apply_all w'.cache ops) envelope.idempotency_key).1 ≡ true
    recognised worker envelope s ops b l (deduplicated old _ _ e) k =
        rw (ap (λ (w : Worker S). w.cache) e)
          (seen-seen_window worker.cache envelope.idempotency_key ops b l old)
    recognised worker envelope s ops b l (handled _ _ _ _ e _ _ _ _) k =
        rw e (seen-add_window worker.cache envelope.idempotency_key ops b l)
    recognised worker envelope s ops b l (dead_lettered _ _ _ _ _ _ e _ _) k = absurd (omega arith)

    -- A message that was settled without a dead letter runs no handler when it is delivered again,
    -- after any fewer operations on the cache than its size, and whatever the process's state is.
    pub process_again :
        (worker : Worker S) (envelope : EventEnvelope) (s t : S) (ops : List (Op String))
        {w' : Worker S} {s' : S} {returned : Bool}
        → IsBounded worker.cache
        → length ops < worker.cache.max_size
        → process bus worker envelope s ≡ some (w', s', returned)
        → w'.dlqs ≡ worker.dlqs
        → (w'' : Worker S) × (process bus (record w' { cache = apply_all w'.cache ops }) envelope t
            ≡ some (w'', t, true))
          × (w''.dead_letters ≡ w'.dead_letters)
    process_again worker envelope s t ops {w'} {s'} b l h k =
        let (w₁, s₁, returned₁, p, effect) = process-Effect bus worker envelope s in
        let same : w₁ ≡ w' = cc in
        let found =
          recognised worker envelope s ops b l effect (ap (λ (w : Worker S). w.dlqs) same ∙ k) in
        let known : (Cache.seen (apply_all w'.cache ops) envelope.idempotency_key).1 ≡ true =
          rw (← same) found in
        let w = record w' { cache = apply_all w'.cache ops } in
        (
          record w { cache = (Cache.seen w.cache envelope.idempotency_key).0 },
          process-settle bus w envelope t ∙ rw known,
          refl,
        )

    pub record IsAccounted (w : Worker S) : Type 0 where
      pub bounded : IsBounded w.cache
      pub dead : w.dlqs ≡ length w.dead_letters

    pub record Progress (w : Worker S) (n : ℕ) (w' : Worker S) : Type 0 where
      pub settled : w'.successes + w'.dlqs ≤ w.successes + w.dlqs + n
      pub kept : w.successes + w.dlqs ≤ w'.successes + w'.dlqs
      pub retried : w'.retries ≤ w.retries + n * bus.retry.max_retries

    settle-IsAccounted :
        (w : Worker S) (envelope : EventEnvelope) (s : S)
        → IsAccounted w
        → let w' = (settle bus w envelope (outcome bus w envelope s)).0 in
          IsAccounted w' × Progress w 1 w'
    unfolding settle apply
    settle-IsAccounted w envelope s a = ground (
      arith,
      apply-IsBounded w.cache (put envelope.idempotency_key) a.bounded,
      length-append w.dead_letters (envelope ∷ []),
      tries_bound w.subscription.handler envelope.event bus.retry.max_retries 0 s,
    )

    process-IsAccounted :
        (w : Worker S) (envelope : EventEnvelope) (s : S)
        → IsAccounted w
        → (w' : Worker S) × (s' : S) × (returned : Bool) × (process bus w envelope s
            ≡ some (w', s', returned))
          × Effect bus w envelope s w' s' returned
          × IsAccounted w'
          × Progress w 1 w'
    unfolding apply
    process-IsAccounted w envelope s a = elim (Bool-cases (is_duplicate bus w envelope s)) [
      | inl old ↦ (
        record w { cache = (Cache.seen w.cache envelope.idempotency_key).0 },
        s,
        true,
        process-settle bus w envelope s ∙ rw old,
        deduplicated old refl refl refl,
        record {
          bounded = (apply-IsBounded w.cache (see envelope.idempotency_key) a.bounded).0;
          dead = a.dead;
        },
        omega arith,
      )
      | inr new ↦
          let (a', p) = settle-IsAccounted w envelope s a in
          let (w', s', returned) = settle bus w envelope (outcome bus w envelope s) in
          (
            w',
            s',
            returned,
            process-settle bus w envelope s ∙ rw new,
            settle-Effect bus w envelope s new,
            a',
            p,
          )
    ]

    -- A consumer's run, message by message: each has its effect on what the one before it has left.
    -- The run ends when nothing is queued, at the shutdown sentinel, or at a message whose
    -- dead-letter handler raises; what is queued behind that message or the sentinel stays queued.
    pub data Run : Worker S → S → List (Option EventEnvelope) → Worker S → S → End → Type 0 where
      drained : {w : Worker S} {s : S} → Run w s [] (record w { queue = [] }) s idle
      shut :
          {w : Worker S} {s : S} {items : List (Option EventEnvelope)}
          → Run w s (none ∷ items) (record w { queue = items }) s shut_down
      next :
          {w w₁ w' : Worker S} {s s₁ s' : S} {envelope : EventEnvelope}
          {items : List (Option EventEnvelope)} {end : End}
          → Effect bus w envelope s w₁ s₁ true
          → Run w₁ s₁ items w' s' end
          → Run w s (some envelope ∷ items) w' s' end
      died :
          {w w₁ : Worker S} {s s₁ : S} {envelope : EventEnvelope}
          {items : List (Option EventEnvelope)}
          → Effect bus w envelope s w₁ s₁ false
          → Run w s (some envelope ∷ items) (record w₁ { queue = items }) s₁ crashed

    -- A run over the items comes to an end, and leaves the consumer accounted.
    abbrev pub WorksThrough : List (Option EventEnvelope) → Worker S → S → Type 0
    WorksThrough items w s =
        (w' : Worker S) × (s' : S) × (end : End) × (run_worker bus w items s ≡ some (w', s', end))
        × Run w s items w' s' end
        × IsAccounted w'
        × Progress w (length items) w'

    WorksThrough-next :
        (items : List (Option EventEnvelope)) (w w₁ : Worker S) (s s₁ : S)
        (envelope : EventEnvelope) (returned : Bool)
        → process bus w envelope s ≡ some (w₁, s₁, returned)
        → Effect bus w envelope s w₁ s₁ returned
        → IsAccounted w₁
        → Progress w 1 w₁
        → WorksThrough items w₁ s₁
        → WorksThrough (some envelope ∷ items) w s
    unfolding run_worker
    WorksThrough-next items w w₁ s s₁ envelope true e f a p (w', s', end, e', r, a', p') =
        (w', s', end, rw (e, run_worker) e', next f r, a', grind arith)
    WorksThrough-next items w w₁ s s₁ envelope false e f a p _ = (
      record w₁ { queue = items },
      s₁,
      crashed,
      rw (e, run_worker) refl,
      died f,
      record { bounded = a.bounded; dead = a.dead },
      grind arith,
    )

    -- A consumer works through whatever is queued for it, shutdown sentinel or not, in a run that
    -- comes to an end and in which every message up to that end has its effect, in order and none
    -- skipped. It stays accounted: its cache keeps within its size, and its count of dead letters is
    -- their number. Each item adds one at most to what it has settled, and the policy's number of
    -- retries at most.
    pub run_worker-IsAccounted :
        (items : List (Option EventEnvelope)) (w : Worker S) (s : S)
        → IsAccounted w
        → WorksThrough items w s
    unfolding run_worker
    run_worker-IsAccounted [] w s a = (
      record w { queue = [] },
      s,
      idle,
      refl,
      drained,
      record { bounded = a.bounded; dead = a.dead },
      omega arith,
    )
    run_worker-IsAccounted (none ∷ items) w s a = (
      record w { queue = items },
      s,
      shut_down,
      refl,
      shut,
      record { bounded = a.bounded; dead = a.dead },
      omega arith,
    )
    run_worker-IsAccounted (some envelope ∷ items) w s a =
        let (w₁, s₁, returned, e, f, a₁, p₁) = process-IsAccounted w envelope s a in
        WorksThrough-next items w w₁ s s₁ envelope returned e f a₁ p₁
          (run_worker-IsAccounted items w₁ s₁ a₁)
