-- ===== src/Prelude/Digits.antt =====
-- The recursion on binary digits that the native bit operations mean, without its count of digits.
use Prim.Native.Nat.{ℕ, zero, suc, ◌/◌, ◌≤◌, digits}
use mathlib.Core.Path.{◌≡◌, refl}
use native.Mathlib.Omega.{arith}

-- Any two counts that cover the first number give the same.
module _ (rest : ℕ → ℕ) (digit : ℕ → ℕ → ℕ) where
  pub digits_covered :
      (a b n m : ℕ) → a ≤ n → a ≤ m → digits rest digit n a b ≡ digits rest digit m a b
  digits_covered zero b zero zero h k = refl
  digits_covered zero b zero (suc m) h k = refl
  digits_covered zero b (suc n) zero h k = refl
  digits_covered zero b (suc n) (suc m) h k = refl
  digits_covered (suc a) b zero m h k = absurd (omega arith)
  digits_covered (suc a) b (suc n) zero h k = absurd (omega arith)
  digits_covered (suc a) b (suc n) (suc m) h k =
      rw (digits_covered (suc a / 2) (b / 2) n m (omega arith) (omega arith)) refl
