-- ===== src/Prelude/Or.antt =====
-- Disjunction of the digits of numbers whose digits do not overlap: it adds them.
use Prim.Native.Nat.{ℕ, zero, suc, ◌+◌, ◌*◌, ◌/◌, ◌%◌, ◌^◌, ◌≤◌, ◌<◌, max, bit_or, bit_or-bitwise}
use mathlib.Core.Path.{◌≡◌, refl}
use native.Mathlib.Omega.{arith}
use platform_rte.Prelude.Digits.{digits_covered}
use native.Mathlib.Nat.{pow-suc}
use platform_rte.Prelude.Xor.{double_power}

pub zero-or : (b : ℕ) → bit_or 0 b ≡ b
zero-or b = bit_or-bitwise 0 b

or_step : (a b : ℕ) → bit_or a b ≡ bit_or (a / 2) (b / 2) * 2 + max (a % 2) (b % 2)
or_step zero b = omega (arith, zero-or b, zero-or (b / 2))
or_step (suc a) b = omega (
  arith,
  bit_or-bitwise (suc a) b,
  bit_or-bitwise (suc a / 2) (b / 2),
  digits_covered (λ y. y) max (suc a / 2) (b / 2) a (suc a / 2) (omega arith) (omega arith),
)

or-zero_below : (n a : ℕ) → a ≤ n → bit_or a 0 ≡ a
or-zero_below n zero h = refl
or-zero_below zero (suc a) h = absurd (omega arith)
or-zero_below (suc n) (suc a) h =
    omega (arith, or_step (suc a) 0, or-zero_below n (suc a / 2) (omega arith))

-- A field above another.
pub or_above : (k r q : ℕ) → r < 2 ^ k → bit_or r (q * 2 ^ k) ≡ r + q * 2 ^ k
or_above zero zero q h = omega (arith, zero-or (q * 1))
or_above zero (suc r) q h = absurd (omega arith)
or_above (suc k) r q h = ground (
  arith,
  or_step r (q * 2 ^ suc k),
  double_power q k,
  pow-suc 2 k,
  or_above k (r / 2) q (omega (arith, pow-suc 2 k)),
)

-- A field below another.
pub or_below : (k q r : ℕ) → r < 2 ^ k → bit_or (q * 2 ^ k) r ≡ q * 2 ^ k + r
or_below zero q zero h = omega (arith, or-zero_below (q * 1) (q * 1) (omega arith))
or_below zero q (suc r) h = absurd (omega arith)
or_below (suc k) q r h = ground (
  arith,
  or_step (q * 2 ^ suc k) r,
  double_power q k,
  pow-suc 2 k,
  or_below k q (r / 2) (omega (arith, pow-suc 2 k)),
)
