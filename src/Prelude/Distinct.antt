-- ===== src/Prelude/Distinct.antt =====
-- Lists without repetition, under the Boolean equality of their items.
use mathlib.Core.Path.{◌≡◌, refl, ap}
use mathlib.Core.Bool.{false, ◌||◌}
use mathlib.Core.Logic.{inl, inr}
use mathlib.Core.Option.{none}
use mathlib.Core.List.{List, [], ◌∷◌, ◌++◌, map}
use native.Mathlib.Omega.{arith}
use sentinal_ai_control_room.Prelude.Tests.{if◌then◌else◌, Bool-cases}
use sentinal_ai_control_room.Prelude.Equality.{Eq, ◌==◌}
use sentinal_ai_control_room.Prelude.Dict.{Dict, keys, get, set, pop, listed}

abbrev pub AllDistinct {ℓ} : {K : Type ℓ} ⦃e : Eq K⦄ → List K → Type 0
AllDistinct [] = Unit
AllDistinct (k ∷ ks) = (listed ks k ≡ false) × AllDistinct ks

pub map-snoc {ℓ κ} :
    {A : Type ℓ} {B : Type κ} (f : A → B) (xs : List A) (y : A)
    → map f (xs ++ y ∷ []) ≡ map f xs ++ f y ∷ []
map-snoc f [] y = refl
map-snoc f (x ∷ xs) y = ap (λ zs. f x ∷ zs) (map-snoc f xs y)

module _ {ℓ} {K : Type ℓ} ⦃e : Eq K⦄ where
  pub listed-snoc : (ks : List K) (j k : K) → listed (ks ++ j ∷ []) k ≡ (listed ks k || j == k)
  listed-snoc [] j k = ground arith
  listed-snoc (i ∷ ks) j k = ground (arith, listed-snoc ks j k)

  pub listed-append : (js ks : List K) (k : K) → listed (js ++ ks) k ≡ (listed js k || listed ks k)
  listed-append [] ks k = refl
  listed-append (j ∷ js) ks k = ground (arith, listed-append js ks k)

  pub AllDistinct-snoc :
      (ks : List K) (j : K) → AllDistinct ks → listed ks j ≡ false → AllDistinct (ks ++ j ∷ [])
  AllDistinct-snoc [] j a h = (refl, tt)
  AllDistinct-snoc (k ∷ ks) j a h = elim (Bool-cases (k == j)) [
    | inl i ↦ absurd (ground arith)
    | inr i ↦
        (let apart : (j == k) ≡ false = ground (arith, e.test_iff k j, e.test_iff j k) in
          (rw (listed-snoc ks j k, a.0, apart) refl, AllDistinct-snoc ks j a.1 (rw i at h)))
  ]

  pub keys-set_new {κ} :
      {V : Type κ} (d : Dict K V) (k : K) (v : V)
      → listed (keys d) k ≡ false
      → keys (set d k v) ≡ keys d ++ k ∷ []
  unfolding set
  keys-set_new [] k v h = refl
  keys-set_new ((j, x) ∷ d) k v h = elim (Bool-cases (j == k)) [
    | inl i ↦ absurd (ground arith)
    | inr i ↦ rw (i, keys-set_new d k v (rw i at h))
  ]

-- Dictionaries whose keys are distinct.
module _ {ℓ κ} {K : Type ℓ} {V : Type κ} ⦃e : Eq K⦄ where
  pub get_unlisted : (d : Dict K V) (k : K) → listed (keys d) k ≡ false → get d k ≡ none
  unfolding get
  get_unlisted [] k h = refl
  get_unlisted ((j, v) ∷ d) k h = elim (Bool-cases (j == k)) [
    | inl i ↦ absurd (ground arith)
    | inr i ↦ rw i (get_unlisted d k (rw i at h))
  ]

  pub listed-pop :
      (d : Dict K V) (k j : K) → listed (keys d) j ≡ false → listed (keys (pop d k)) j ≡ false
  unfolding pop
  listed-pop [] k j h = refl
  listed-pop ((i, v) ∷ d) k j h = ground (arith, listed-pop d k j)

  pub AllDistinct-pop : (d : Dict K V) (k : K) → AllDistinct (keys d) → AllDistinct (keys (pop d k))
  unfolding pop
  AllDistinct-pop [] k a = tt
  AllDistinct-pop ((i, v) ∷ d) k a = elim (Bool-cases (i == k)) [
    | inl h ↦ rw h a.1
    | inr h ↦ rw h (listed-pop d k i a.0, AllDistinct-pop d k a.1)
  ]

  pub get-pop :
      (d : Dict K V) (k j : K)
      → AllDistinct (keys d)
      → get (pop d k) j ≡ (if k == j then none else get d j)
  unfolding get pop
  get-pop [] k j a = ground arith
  get-pop ((i, v) ∷ d) k j a = elim (Bool-cases (i == k)) [
    | inl h ↦
        (let same : i ≡ k = (e.test_iff i k).0 h in
          let gone = get_unlisted d i a.0 in
          elim (Bool-cases (k == j)) [
            | inl m ↦
                (let same' : k ≡ j = (e.test_iff k j).0 m in rw (h, m) (rw (← same', ← same) gone))
            | inr m ↦ (let n : (i == j) ≡ false = rw same m in rw (h, m, n) refl)
          ])
    | inr h ↦ ground (arith, get-pop d k j a.1, e.test_iff i k, e.test_iff i j, e.test_iff k j)
  ]

  pub listed-set :
      (d : Dict K V) (k j : K) (v : V) → listed (keys (set d k v)) j ≡ (listed (keys d) j || k == j)
  unfolding set
  listed-set [] k j v = ground arith
  listed-set ((i, w) ∷ d) k j v =
      ground (arith, listed-set d k j v, e.test_iff i k, e.test_iff i j, e.test_iff k j)

  pub AllDistinct-set :
      (d : Dict K V) (k : K) (v : V) → AllDistinct (keys d) → AllDistinct (keys (set d k v))
  unfolding set
  AllDistinct-set [] k v a = (refl, tt)
  AllDistinct-set ((i, w) ∷ d) k v a = elim (Bool-cases (i == k)) [
    | inl h ↦ rw h a
    | inr h ↦
        (let apart : (k == i) ≡ false = ground (arith, e.test_iff i k, e.test_iff k i) in
          rw h (rw (listed-set d k i v, a.0, apart) refl, AllDistinct-set d k v a.1))
  ]
