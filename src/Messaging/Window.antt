-- ===== src/Messaging/Window.antt =====
-- How long the `IdempotencyCache` of libs/sentinel/messaging/bus.py remembers a key.
use sentinal_ai_control_room.Prelude.{
  ℕ, suc, ◌+◌, ◌≤◌, ◌<◌, ◌≡◌, inl, inr, Bool, true, false, List, [], ◌∷◌, ◌++◌, Eq, ◌==◌, leb,
  length, length-append, if◌then◌else◌, Bool-cases, beq_refl, arith,
}
use sentinal_ai_control_room.Messaging.Cache.{
  contains, remove, move_to_end, pop_oldest, IdempotencyCache, seen, add,
}
use native.Mathlib.Nat.{add-zero}

pub data Op {ℓ} (K : Type ℓ) : Type ℓ where
  see : K → Op K
  put : K → Op K

module _ {ℓ} {K : Type ℓ} ⦃e : Eq K⦄ where
  unfoldable pub apply : IdempotencyCache K → Op K → IdempotencyCache K
  apply c (see k) = (seen c k).0
  apply c (put k) = add c k

  unfoldable pub apply_all : IdempotencyCache K → List (Op K) → IdempotencyCache K
  apply_all c [] = c
  apply_all c (op ∷ ops) = apply_all (apply c op) ops

  -- `k` is there, and at most `n` keys are younger.
  young : List K → K → ℕ → Bool
  young [] k n = false
  young (j ∷ keys) k n = if j == k then leb (length keys) n else young keys k n

  young-contains : (keys : List K) (k : K) (n : ℕ) → young keys k n ≡ true → contains keys k ≡ true
  unfolding contains young
  young-contains [] k n h = cc
  young-contains (j ∷ keys) k n h = ground (arith, young-contains keys k n)

  young_mono :
      (keys : List K) (k : K) (n m : ℕ) → n ≤ m → young keys k n ≡ true → young keys k m ≡ true
  unfolding young
  young_mono [] k n m l h = cc
  young_mono (j ∷ keys) k n m l h = ground (arith, young_mono keys k n m)

  length-remove-le : (keys : List K) (k : K) → length (remove keys k) ≤ length keys
  unfolding remove
  length-remove-le [] k = omega arith
  length-remove-le (j ∷ keys) k = ground (arith, length-remove-le keys k)

  length-remove-lt :
      (keys : List K) (k : K) → contains keys k ≡ true → length (remove keys k) < length keys
  unfolding remove contains
  length-remove-lt [] k h = cc
  length-remove-lt (j ∷ keys) k h = ground (arith, length-remove-lt keys k, length-remove-le keys k)

  young-append :
      (keys : List K) (j k : K) (n : ℕ)
      → young keys k n ≡ true
      → young (keys ++ j ∷ []) k (n + 1) ≡ true
  unfolding young
  young-append [] j k n h = cc
  young-append (i ∷ keys) j k n h =
      ground (arith, young-append keys j k n, length-append keys (j ∷ []))

  young-remove :
      (keys : List K) (j k : K) (n : ℕ)
      → (j == k) ≡ false
      → young keys k n ≡ true
      → young (remove keys j) k n ≡ true
  unfolding remove young
  young-remove [] j k n d h = cc
  young-remove (i ∷ keys) j k n d h = ground (
    arith,
    young-remove keys j k n,
    length-remove-le keys j,
    e.test_iff i j,
    e.test_iff i k,
    e.test_iff j k,
  )

  young-remove_self : (keys : List K) (k : K) → young (remove keys k ++ k ∷ []) k 0 ≡ true
  unfolding remove young
  young-remove_self [] k = rw (beq_refl k)
  young-remove_self (i ∷ keys) k = ground (arith, young-remove_self keys k)

  young-pop :
      (keys : List K) (k : K) (n : ℕ)
      → n + 1 < length keys
      → young keys k n ≡ true
      → young (pop_oldest keys) k n ≡ true
  unfolding young
  young-pop [] k n l h = cc
  young-pop (j ∷ keys) k n l h = ground arith

  young-move :
      (keys : List K) (j k : K) (n : ℕ)
      → young keys k n ≡ true
      → young (move_to_end keys j) k (n + 1) ≡ true
  young-move keys j k n h = elim (Bool-cases (j == k)) [
    | inl same ↦
        let p : j ≡ k = (e.test_iff j k).0 same in
        rw p (young_mono (move_to_end keys k) k 0 (n + 1) (omega arith) (young-remove_self keys k))
    | inr other ↦ young-append (remove keys j) j k n (young-remove keys j k n other h)
  ]

  abbrev pub IsBounded : IdempotencyCache K → Type 0
  IsBounded c = (1 ≤ c.max_size) × (length c.keys ≤ c.max_size)

  -- Every operation keeps the cache within its size, and does not change the size.
  pub apply-IsBounded :
      (c : IdempotencyCache K) (op : Op K)
      → IsBounded c
      → IsBounded (apply c op) × ((apply c op).max_size ≡ c.max_size)
  unfolding apply seen add
  apply-IsBounded c (see k) h =
      ground (arith, length-append (remove c.keys k) (k ∷ []), length-remove-lt c.keys k)
  apply-IsBounded c (put k) h =
      ground (arith, length-append (remove c.keys k) (k ∷ []), length-remove-le c.keys k)

  young-apply :
      (c : IdempotencyCache K) (op : Op K) (k : K) (n : ℕ)
      → n + 1 < c.max_size
      → young c.keys k n ≡ true
      → young (apply c op).keys k (n + 1) ≡ true
  unfolding apply seen add
  young-apply c (see j) k n l h =
      ground (arith, young-move c.keys j k n, young_mono c.keys k n (n + 1))
  young-apply c (put j) k n l h =
      ground (arith, young-move c.keys j k n, young-pop (move_to_end c.keys j) k (n + 1))

  young-add : (c : IdempotencyCache K) (k : K) → 1 ≤ c.max_size → young (add c k).keys k 0 ≡ true
  unfolding add
  young-add c k l = ground (arith, young-remove_self c.keys k, young-pop (move_to_end c.keys k) k 0)

  young-seen :
      (c : IdempotencyCache K) (k : K) → (seen c k).1 ≡ true → young (seen c k).0.keys k 0 ≡ true
  unfolding seen
  young-seen c k h = ground (arith, young-remove_self c.keys k)

  young-apply_all :
      (ops : List (Op K)) (c : IdempotencyCache K) (k : K) (n : ℕ)
      → n + length ops < c.max_size
      → IsBounded c
      → young c.keys k n ≡ true
      → young (apply_all c ops).keys k (n + length ops) ≡ true
  unfolding apply_all
  young-apply_all [] c k n l b h = rw add-zero h
  young-apply_all (op ∷ ops) c k n l b h =
      let (b', size) = apply-IsBounded c op b in
      let rest =
        young-apply_all ops (apply c op) k (n + 1) (omega arith) b'
          (young-apply c op k n (omega arith) h) in
      young_mono (apply_all (apply c op) ops).keys k (n + 1 + length ops) (n + suc (length ops))
        (omega arith) rest

  seen_window :
      (c : IdempotencyCache K) (k : K) (ops : List (Op K))
      → IsBounded c
      → length ops < c.max_size
      → young c.keys k 0 ≡ true
      → (seen (apply_all c ops) k).1 ≡ true
  unfolding seen
  seen_window c k ops b l h = rw (
      young-contains (apply_all c ops).keys k (0 + length ops)
        (young-apply_all ops c k 0 (omega arith) b h))

  -- A key that was added is still recognised after any operations on other keys or on itself, as
  -- long as these are fewer than the size of the cache.
  pub seen-add_window :
      (c : IdempotencyCache K) (k : K) (ops : List (Op K))
      → IsBounded c
      → length ops < c.max_size
      → (seen (apply_all (add c k) ops) k).1 ≡ true
  unfolding apply
  seen-add_window c k ops b l =
      let (b', size) = apply-IsBounded c (put k) b in
      seen_window (add c k) k ops b' (omega arith) (young-add c k b.0)

  -- A key that was recognised counts as used, and is recognised for as long again.
  pub seen-seen_window :
      (c : IdempotencyCache K) (k : K) (ops : List (Op K))
      → IsBounded c
      → length ops < c.max_size
      → (seen c k).1 ≡ true
      → (seen (apply_all (seen c k).0 ops) k).1 ≡ true
  unfolding apply
  seen-seen_window c k ops b l h =
      let (b', size) = apply-IsBounded c (see k) b in
      seen_window (seen c k).0 k ops b' (omega arith) (young-seen c k h)
