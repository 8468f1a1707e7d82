-- ===== src/Prelude/Results.antt =====
-- Exceptions as values.
use mathlib.Core.Path.{◌≡◌, refl}

-- The Python exceptions that the modelled code raises.
pub data Error : Type 0 where
  value_error : Error
  unknown_event_type_error : Error
  key_error : Error
  zero_division_error : Error

pub data Result {ℓ} (V : Type ℓ) : Type ℓ where
  raise : Error → Result V
  ok : V → Result V

infixl 5 ◌>>=◌
-- What follows an exception is not carried out.
abbrev pub ◌>>=◌ {ℓ κ} : {V : Type ℓ} {W : Type κ} → Result V → (V → Result W) → Result W
raise exception >>= rest = raise exception
ok v >>= rest = rest v

-- A chain that returns has returned at its first step.
pub >>=-eq-ok {ℓ κ} :
    {V : Type ℓ} {W : Type κ} {w : W} (first : Result V) (rest : V → Result W)
    → (first >>= rest) ≡ ok w
    → (v : V) × (first ≡ ok v) × (rest v ≡ ok w)
>>=-eq-ok (raise exception) rest returned = cc
>>=-eq-ok (ok v) rest returned = (v, refl, returned)
