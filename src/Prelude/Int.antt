-- ===== src/Prelude/Int.antt =====
-- Signed integers over the native numbers, as the code's `int` and `std::int64_t` read them.
use Prim.Native.Nat.{ℕ, ◌≤◌}
use mathlib.Core.Path.{◌≡◌}
use native.Mathlib.Omega.{arith}
use mathlib.Core.Bool.{Bool, true, false}
use space_station.Prelude.Tests.{ltb, if◌then◌else◌, ◌==◌}

-- `negsuc n` is -(n + 1).
pub data ℤ : Type 0 where
  pos : ℕ → ℤ
  negsuc : ℕ → ℤ

-- The comparisons of an int with a number that is not negative.
abbrev pub is_int : ℤ → ℕ → Bool
is_int (pos n) m = n == m
is_int (negsuc n) m = false

abbrev pub int_below : ℤ → ℕ → Bool
int_below (pos n) m = ltb n m
int_below (negsuc n) m = true

abbrev pub int_above : ℤ → ℕ → Bool
int_above (pos n) m = ltb m n
int_above (negsuc n) m = false

-- std::clamp(value, low, high) with bounds that are not negative.
unfoldable pub clamp : ℤ → ℕ → ℕ → ℕ
clamp (negsuc n) low high = low
clamp (pos n) low high = if ltb n low then low else if ltb high n then high else n

pub clamp_bounds :
    (z : ℤ) (low high : ℕ) → low ≤ high → (low ≤ clamp z low high) × (clamp z low high ≤ high)
unfolding clamp
clamp_bounds (negsuc n) low high h = omega arith
clamp_bounds (pos n) low high h = ground arith

-- A value within the bounds is kept.
pub clamp_within : (n low high : ℕ) → low ≤ n → n ≤ high → clamp (pos n) low high ≡ n
unfolding clamp
clamp_within n low high l h = ground arith
