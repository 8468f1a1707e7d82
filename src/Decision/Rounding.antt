-- ===== src/Decision/Rounding.antt =====
-- Python's `round(x, n)` on quantities in fixed point: to the nearest multiple, and to the even one
-- of two that are as near.
use sentinal_ai_control_room.Prelude.{ℕ, ◌+◌, ◌*◌, ◌/◌, ◌%◌, ltb, if◌then◌else◌}

-- The number of units, of `unit` each, that `n` is rounded to.
unfoldable pub round_units : ℕ → ℕ → ℕ
round_units unit n =
    let q = n / unit in
    let r = n % unit in
    if ltb (2 * r) unit then q else if ltb unit (2 * r) then q + 1 else q + q % 2

-- A score in millionths, rounded to three places.
abbrev pub round3 : ℕ → ℕ
round3 = round_units 1000

-- A quantity in thousandths, rounded to two places and to one.
abbrev pub round2 : ℕ → ℕ
round2 n = round_units 10 n * 10

abbrev pub round1 : ℕ → ℕ
round1 n = round_units 100 n * 100
