-- ===== src/Prelude/Word.antt =====
-- Go's int64 as a bit pattern below 2 ^ 64, with wrap-around sums and the signed order.
use Prim.Native.Nat.{ℕ, ◌+◌, ◌-◌, ◌%◌, ◌<◌}
use mathlib.Core.Path.{◌≡◌}
use mathlib.Core.Bool.{Bool, not, ◌&&◌}
use native.Mathlib.Omega.{arith}
use singboxhub.Prelude.Tests.{ltb, leb, ◌==◌}

abbrev pub two64 : ℕ
two64 = 18446744073709551616

abbrev pub two63 : ℕ
two63 = 9223372036854775808

-- a + b and a - b on int64.
abbrev pub add64 : ℕ → ℕ → ℕ
add64 a b = (a + b) % two64

abbrev pub sub64 : ℕ → ℕ → ℕ
sub64 a b = (a + two64 - b) % two64

-- x < 0 and x > 0 on int64.
abbrev pub is_neg : ℕ → Bool
is_neg a = leb two63 a

abbrev pub is_pos : ℕ → Bool
is_pos a = not (is_neg a) && not (a == 0)

-- a < b on int64: the order of the patterns with the sign bit flipped.
abbrev pub bias : ℕ → ℕ
bias a = (a + two63) % two64

abbrev pub slt : ℕ → ℕ → Bool
slt a b = ltb (bias a) (bias b)

-- On values that are not negative the signed order is the order of the numbers.
pub slt-nonneg : (a b : ℕ) → a < two63 → b < two63 → slt a b ≡ ltb a b
slt-nonneg a b h k = ground arith
