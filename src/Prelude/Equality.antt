-- ===== src/Prelude/Equality.antt =====
-- Equality tests as an interface: the keys of dictionaries and the members of enumerations.
use Prim.Native.Nat.{ℕ}
use Prim.Native.String.{String}
use mathlib.Core.Path.{◌≡◌, refl}
use mathlib.Core.Logic.{◌↔◌}
use mathlib.Core.Bool.{Bool, true}
use text.Mathlib.Text.{◌==◌ as string_test}
use text.Mathlib.TextEquality.{eq_iff}
use sentinal_ai_control_room.Prelude.Tests.{nat_beq, nat_beq_iff}

-- A type whose `==` is Python's comparison by value.
pub record Eq {ℓ} (K : Type ℓ) : Type ℓ where
  pub test : K → K → Bool
  pub test_iff : (x y : K) → (test x y ≡ true) ↔ (x ≡ y)

instance abbrev pub nat_eq : Eq ℕ
nat_eq = record { test = nat_beq; test_iff = nat_beq_iff }

instance abbrev pub string_eq : Eq String
string_eq = record { test = string_test; test_iff = eq_iff }

module _ {ℓ} {K : Type ℓ} ⦃e : Eq K⦄ where
  infix 50 ◌==◌
  abbrev pub ◌==◌ : K → K → Bool
  x == y = e.test x y

  pub beq_refl : (x : K) → (x == x) ≡ true
  beq_refl x = (e.test_iff x x).1 refl
