-- ===== src/Messaging/Cache.antt =====
-- `IdempotencyCache` of libs/sentinel/messaging/bus.py. The `OrderedDict` maps every key to `None`,
-- so it is the list of its keys, oldest first.
use sentinal_ai_control_room.Prelude.{
  ℕ, Bool, true, false, ◌||◌, List, [], ◌∷◌, ◌++◌, Eq, ◌==◌, ltb, length, if◌then◌else◌,
}
use sentinal_ai_control_room.Prelude.Results.{Result, ok, raise, value_error}

module _ {ℓ} {K : Type ℓ} ⦃e : Eq K⦄ where
  -- `key in self._keys`.
  unfoldable pub contains : List K → K → Bool
  contains [] k = false
  contains (j ∷ keys) k = (j == k) || contains keys k

  -- The keys without `k`.
  unfoldable pub remove : List K → K → List K
  remove [] k = []
  remove (j ∷ keys) k = if j == k then remove keys k else j ∷ remove keys k

  -- `move_to_end`, of a key that is there; and `self._keys[key] = None` followed by it.
  abbrev pub move_to_end : List K → K → List K
  move_to_end keys k = remove keys k ++ k ∷ []

-- `popitem(last=False)`.
abbrev pub pop_oldest {ℓ} : {K : Type ℓ} → List K → List K
pop_oldest [] = []
pop_oldest (k ∷ keys) = keys

pub record IdempotencyCache {ℓ} (K : Type ℓ) : Type ℓ where
  pub max_size : ℕ
  pub keys : List K

-- `__init__`.
unfoldable pub init {ℓ} : {K : Type ℓ} → ℕ → Result (IdempotencyCache K)
init max_size =
    if ltb max_size 1 then raise value_error else ok (record { max_size = max_size; keys = [] })

module _ {ℓ} {K : Type ℓ} ⦃e : Eq K⦄ where
  unfoldable pub seen : IdempotencyCache K → K → IdempotencyCache K × Bool
  seen c key =
      if contains c.keys key then (record c { keys = move_to_end c.keys key }, true) else (c, false)

  unfoldable pub add : IdempotencyCache K → K → IdempotencyCache K
  add c key =
      let keys = move_to_end c.keys key in
      record c { keys = if ltb c.max_size (length keys) then pop_oldest keys else keys }
