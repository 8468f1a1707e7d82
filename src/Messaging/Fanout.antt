-- ===== src/Messaging/Fanout.antt =====
-- `publish` of libs/sentinel/messaging/inmemory.py over all the consumers.
use sentinal_ai_control_room.Prelude.{
  ◌≡◌, ◌≢◌, ◌↔◌, ◌⊎◌, inl, inr, refl, true, false, Option, none, some, List, [], ◌∷◌, ◌++◌, map,
  String, ◌==◌, string_eq, Bool-cases, arith,
}
use sentinal_ai_control_room.Contracts.Events.{Delivered, event_type}
use sentinal_ai_control_room.Messaging.Bus.{
  Worker, InMemoryEventBus, mentions, matches, key_or_id, new_envelope, offer, publish,
}

-- The name is one of the list.
abbrev pub Names : List String → String → Type 0
Names [] t = ⊥
Names (u ∷ types) t = (u ≡ t) ⊎ Names types t

-- A subscription to these types is for this one: by the wildcard or by name.
abbrev pub IsFor : List String → String → Type 0
IsFor types t = Names types "*" ⊎ Names types t

mentions_iff : (types : List String) (t : String) → (mentions types t ≡ true) ↔ Names types t
unfolding mentions
mentions_iff [] t = ground arith
mentions_iff (u ∷ types) t = ground (arith, mentions_iff types t, string_eq.test_iff u t)

matches_iff : (types : List String) (t : String) → (matches types t ≡ true) ↔ IsFor types t
unfolding matches
matches_iff types t = ground (arith, mentions_iff types "*", mentions_iff types t)

-- The key that a message gets: the publisher's, and the event's id where that is left out or empty.
pub data IsKey (event : Delivered) : Option String → String → Type 0 where
  given : {key : String} → key ≢ "" → IsKey event (some key) key
  empty : IsKey event (some "") event.event_id
  left_out : IsKey event none event.event_id

-- An empty key is replaced by the event's id, once or twice.
same_id : (event : Delivered) → (new_envelope event event.event_id).idempotency_key ≡ event.event_id
unfolding new_envelope
same_id event = ground arith

new_key :
    (event : Delivered) (key : Option String) (k : String)
    → IsKey event key k
    → ((new_envelope event (key_or_id key event)).idempotency_key ≡ k)
      × ((new_envelope event k).idempotency_key ≡ k)
unfolding new_envelope
new_key event key k (given h) =
    let some_key : (k == "") ≡ false = ground (arith, string_eq.test_iff k "") in
    (rw (some_key, some_key) refl, rw some_key refl)
new_key event key k empty = (same_id event, same_id event)
new_key event key k left_out = (same_id event, same_id event)

module _ {S : Type 0} where
  -- What a publication does to one consumer: one message behind those that wait, with the event
  -- and the key and nothing yet counted, if its subscription is for the type; otherwise nothing.
  pub data Handed (event : Delivered) (key : String) (w w' : Worker S) : Type 0 where
    reached :
        IsFor w.subscription.event_types (event_type event.event.payload)
        → w' ≡ record w {
          queue =
              w.queue
              ++ some
                  (record { event = event; idempotency_key = key; retry_count = 0; headers = [] })
                ∷ [];
        }
        → Handed event key w w'
    passed_by :
        ¬ (IsFor w.subscription.event_types (event_type event.event.payload))
        → w' ≡ w
        → Handed event key w w'

  -- The same of each of the consumers, in order.
  abbrev pub AllHanded : Delivered → String → List (Worker S) → List (Worker S) → Type 0
  AllHanded event key [] [] = Unit
  AllHanded event key (w ∷ ws) (w' ∷ ws') = Handed event key w w' × AllHanded event key ws ws'
  AllHanded event key _ _ = ⊥

  offer-Handed :
      (event : Delivered) (key : Option String) (k : String)
      → IsKey event key k
      → (w : Worker S) → Handed event k w (offer (new_envelope event (key_or_id key event)) w)
  unfolding offer new_envelope
  offer-Handed event key k i w =
      let types = w.subscription.event_types in
      let t = event_type event.event.payload in
      let (one, two) = new_key event key k i in
      elim (Bool-cases (matches types t)) [
        | inl h ↦ reached ((matches_iff types t).0 h) (rw (h, one, two) refl)
        | inr h ↦ passed_by (λ f. absurd (cc ((matches_iff types t).1 f))) (rw h refl)
      ]

  -- Publishing hands every consumer whose subscription is for the event's type, by its name or by
  -- the wildcard, one message behind those that wait for it, with the publisher's key, or with the
  -- event's id where that is left out or empty, and leaves every other consumer as it is.
  pub publish-AllHanded :
      (bus : InMemoryEventBus S) (event : Delivered) (key : Option String) (k : String)
      → IsKey event key k
      → AllHanded event k bus.workers (publish bus event key).workers
  unfolding publish
  publish-AllHanded bus event key k i = go bus.workers
    where
      go :
          (ws : List (Worker S))
          → AllHanded event k ws (map (offer (new_envelope event (key_or_id key event))) ws)
      go [] = tt
      go (w ∷ ws) = (offer-Handed event key k i w, go ws)
