-- ===== src/Prelude/Dict.antt =====
-- A Python `dict` as an association list in insertion order: an update keeps a key's place, a new
-- key goes to the end.
use mathlib.Core.Path.{◌≡◌, refl}
use mathlib.Core.Bool.{Bool, true, false}
use mathlib.Core.Logic.{inl, inr}
use mathlib.Core.Option.{Option, none, some}
use mathlib.Core.List.{List, [], ◌∷◌, map}
use native.Mathlib.Omega.{arith}
use sentinal_ai_control_room.Prelude.Tests.{if◌then◌else◌, Bool-cases}
use sentinal_ai_control_room.Prelude.Equality.{Eq, ◌==◌, beq_refl}

abbrev pub Dict {ℓ κ} : Type ℓ → Type κ → Type (ℓ ⊔ κ)
Dict K V = List (K × V)

module _ {ℓ κ} {K : Type ℓ} {V : Type κ} where
  abbrev pub keys : Dict K V → List K
  keys = map (λ e. e.0)

  abbrev pub values : Dict K V → List V
  values = map (λ e. e.1)

module _ {ℓ κ} {K : Type ℓ} {V : Type κ} ⦃e : Eq K⦄ where
  -- `d.get(k)`
  unfoldable pub get : Dict K V → K → Option V
  get [] k = none
  get ((j, v) ∷ d) k = if j == k then some v else get d k

  -- `d[k] = v`
  unfoldable pub set : Dict K V → K → V → Dict K V
  set [] k v = (k, v) ∷ []
  set ((j, w) ∷ d) k v = if j == k then (j, v) ∷ d else (j, w) ∷ set d k v

  -- `d.pop(k, None)`, `del d[k]`
  unfoldable pub pop : Dict K V → K → Dict K V
  pop [] k = []
  pop ((j, w) ∷ d) k = if j == k then d else (j, w) ∷ pop d k

  pub get-set :
      (d : Dict K V) (k j : K) (v : V) → get (set d k v) j ≡ (if k == j then some v else get d j)
  unfolding get set
  get-set [] k j v = refl
  get-set ((i, w) ∷ d) k j v =
      ground (arith, e.test_iff i k, e.test_iff i j, e.test_iff k j, get-set d k j v)

  pub get-set_self : (d : Dict K V) (k : K) (v : V) → get (set d k v) k ≡ some v
  get-set_self d k v = rw (get-set d k k v, beq_refl k)

-- A predicate of every entry.
abbrev pub AllEntries {ℓ κ μ} : {K : Type ℓ} {V : Type κ} → (K → V → Type μ) → Dict K V → Type μ
AllEntries P [] = Unit
AllEntries P ((k, v) ∷ d) = P k v × AllEntries P d

abbrev pub listed {ℓ} : {K : Type ℓ} ⦃e : Eq K⦄ → List K → K → Bool
listed [] k = false
listed (j ∷ ks) k = if j == k then true else listed ks k

module _ {ℓ κ} {K : Type ℓ} {V : Type κ} ⦃e : Eq K⦄ where
  pub get-listed : (d : Dict K V) (k : K) → listed (keys d) k ≡ true → (v : V) × (get d k ≡ some v)
  unfolding get
  get-listed [] k h = absurd (cc)
  get-listed ((j, v) ∷ d) k h = elim (Bool-cases (j == k)) [
    | inl i ↦ (v, rw i)
    | inr i ↦
        (let rest : listed (keys d) k ≡ true = rw i at h in
          let (w, g) = get-listed d k rest in (w, rw i g))
  ]

  pub keys-set_known :
      (d : Dict K V) (k : K) (v w : V) → get d k ≡ some v → keys (set d k w) ≡ keys d
  unfolding get set
  keys-set_known [] k v w h = cc
  keys-set_known ((j, x) ∷ d) k v w h = elim (Bool-cases (j == k)) [
    | inl i ↦ rw i
    | inr i ↦ (let g : get d k ≡ some v = rw i at h in rw (i, keys-set_known d k v w g))
  ]

  pub AllEntries-get {μ} :
      (P : K → V → Type μ) (d : Dict K V) (k : K) (v : V)
      → AllEntries P d
      → get d k ≡ some v
      → P k v
  unfolding get
  AllEntries-get P [] k v a h = absurd (cc)
  AllEntries-get P ((j, x) ∷ d) k v a h = elim (Bool-cases (j == k)) [
    | inl i ↦
        (let same : j ≡ k = (e.test_iff j k).0 i in
          let found : some x ≡ some v = rw i at h in
          let value : x ≡ v = cc in rw (← same, ← value) a.0)
    | inr i ↦ (let g : get d k ≡ some v = rw i at h in AllEntries-get P d k v a.1 g)
  ]

  pub AllEntries-set {μ} :
      (P : K → V → Type μ) (d : Dict K V) (k : K) (v : V)
      → AllEntries P d
      → P k v
      → AllEntries P (set d k v)
  unfolding set
  AllEntries-set P [] k v a p = (p, tt)
  AllEntries-set P ((j, x) ∷ d) k v a p = elim (Bool-cases (j == k)) [
    | inl i ↦ (let same : j ≡ k = (e.test_iff j k).0 i in rw i (rw same p, a.1))
    | inr i ↦ rw i (a.0, AllEntries-set P d k v a.1 p)
  ]
