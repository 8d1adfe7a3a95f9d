-- ===== src/Prelude/Xor.antt =====
-- Exclusive or of numbers of any size: its laws, from the recursion on binary digits that it means.
use Prim.Native.Nat.{
  ℕ, zero, suc, ◌+◌, ◌*◌, ◌/◌, ◌%◌, ◌^◌, ◌≤◌, ◌<◌, differ, bit_xor, bit_xor-bitwise,
}
use mathlib.Core.Path.{◌≡◌, ◌∙◌, refl, sym, ap}
use native.Mathlib.Omega.{arith}
use platform_rte.Prelude.Digits.{digits_covered}
use native.Mathlib.Nat.{le_refl, pow-suc}

zero-bit_xor : (b : ℕ) → bit_xor 0 b ≡ b
zero-bit_xor b = bit_xor-bitwise 0 b

differ-zero : (b : ℕ) → differ 0 b ≡ b
differ-zero b = refl

-- The lowest digit, and the others.
pub bit_xor_step : (a b : ℕ) → bit_xor a b ≡ bit_xor (a / 2) (b / 2) * 2 + differ (a % 2) (b % 2)
bit_xor_step zero b = omega (arith, zero-bit_xor b, zero-bit_xor (b / 2))
bit_xor_step (suc a) b = omega (
  arith,
  bit_xor-bitwise (suc a) b,
  bit_xor-bitwise (suc a / 2) (b / 2),
  digits_covered (λ y. y) differ (suc a / 2) (b / 2) a (suc a / 2) (omega arith) (omega arith),
)

differ_digits : (x y : ℕ) → x < 2 → y < 2 → differ x y ≡ (x + y) % 2
differ_digits zero zero h k = refl
differ_digits zero (suc zero) h k = refl
differ_digits zero (suc (suc y)) h k = absurd (omega arith)
differ_digits (suc zero) zero h k = refl
differ_digits (suc zero) (suc zero) h k = refl
differ_digits (suc zero) (suc (suc y)) h k = absurd (omega arith)
differ_digits (suc (suc x)) y h k = absurd (omega arith)

pub xor_step : (a b : ℕ) → bit_xor a b ≡ bit_xor (a / 2) (b / 2) * 2 + (a + b) % 2
xor_step a b =
    omega (arith, bit_xor_step a b, differ_digits (a % 2) (b % 2) (omega arith) (omega arith))

pub xor_half : (a b : ℕ) → bit_xor a b / 2 ≡ bit_xor (a / 2) (b / 2)
xor_half a b = omega (arith, xor_step a b)

pub xor_low : (a b : ℕ) → bit_xor a b % 2 ≡ (a + b) % 2
xor_low a b = omega (arith, xor_step a b)

-- The laws, by induction on a bound of the first number.
xor-zero_below : (n a : ℕ) → a ≤ n → bit_xor a 0 ≡ a
xor-zero_below zero zero h = refl
xor-zero_below zero (suc a) h = absurd (omega arith)
xor-zero_below (suc n) zero h = refl
xor-zero_below (suc n) (suc a) h =
    omega (arith, xor_step (suc a) 0, xor-zero_below n (suc a / 2) (omega arith))

pub xor-zero : (a : ℕ) → bit_xor a 0 ≡ a
xor-zero a = xor-zero_below a a (le_refl a)

pub zero-xor : (b : ℕ) → bit_xor 0 b ≡ b
zero-xor b = zero-bit_xor b

xor_comm_below : (n a b : ℕ) → a ≤ n → bit_xor a b ≡ bit_xor b a
xor_comm_below zero zero b h = omega (arith, zero-xor b, xor-zero b)
xor_comm_below zero (suc a) b h = absurd (omega arith)
xor_comm_below (suc n) zero b h = omega (arith, zero-xor b, xor-zero b)
xor_comm_below (suc n) (suc a) b h = omega (
  arith,
  xor_step (suc a) b,
  xor_step b (suc a),
  xor_comm_below n (suc a / 2) (b / 2) (omega arith),
)

pub xor_comm : (a b : ℕ) → bit_xor a b ≡ bit_xor b a
xor_comm a b = xor_comm_below a a b (le_refl a)

xor_assoc_below : (n a b c : ℕ) → a ≤ n → bit_xor (bit_xor a b) c ≡ bit_xor a (bit_xor b c)
xor_assoc_below zero zero b c h = rw (zero-xor b, zero-xor (bit_xor b c)) refl
xor_assoc_below zero (suc a) b c h = absurd (omega arith)
xor_assoc_below (suc n) zero b c h = rw (zero-xor b, zero-xor (bit_xor b c)) refl
xor_assoc_below (suc n) (suc a) b c h =
    rw
      (
        xor_step (bit_xor (suc a) b) c,
        xor_step (suc a) (bit_xor b c),
        xor_half (suc a) b,
        xor_half b c,
        xor_assoc_below n (suc a / 2) (b / 2) (c / 2) (omega arith),
      )
      (omega (arith, xor_low (suc a) b, xor_low b c))

pub xor_assoc : (a b c : ℕ) → bit_xor (bit_xor a b) c ≡ bit_xor a (bit_xor b c)
xor_assoc a b c = xor_assoc_below a a b c (le_refl a)

xor_self_below : (n a : ℕ) → a ≤ n → bit_xor a a ≡ 0
xor_self_below zero zero h = refl
xor_self_below zero (suc a) h = absurd (omega arith)
xor_self_below (suc n) zero h = refl
xor_self_below (suc n) (suc a) h =
    omega (arith, xor_step (suc a) (suc a), xor_self_below n (suc a / 2) (omega arith))

pub xor_self : (a : ℕ) → bit_xor a a ≡ 0
xor_self a = xor_self_below a a (le_refl a)

pub xor_twice : (a b : ℕ) → bit_xor (bit_xor a b) b ≡ a
xor_twice a b = rw (xor_assoc a b b, xor_self b) (xor-zero a)

-- Numbers whose exclusive or is 0 are equal.
pub eq_of_xor_zero : (a b : ℕ) → bit_xor a b ≡ 0 → a ≡ b
eq_of_xor_zero a b h = omega (arith, xor_twice a b, ap (λ (x : ℕ). bit_xor x b) h, zero-xor b)

pub xor_lt : (n a b : ℕ) → a < 2 ^ n → b < 2 ^ n → bit_xor a b < 2 ^ n
xor_lt zero zero zero h k = refl_lt
  where
    refl_lt : bit_xor 0 0 < 1
    refl_lt = omega (arith, zero-xor 0)
xor_lt zero zero (suc b) h k = absurd (omega arith)
xor_lt zero (suc a) b h k = absurd (omega arith)
xor_lt (suc n) a b h k = omega (
  arith,
  xor_step a b,
  pow-suc 2 n,
  xor_lt n (a / 2) (b / 2) (omega (arith, pow-suc 2 n)) (omega (arith, pow-suc 2 n)),
)

pub xor_swap : (x p y : ℕ) → bit_xor (bit_xor x p) y ≡ bit_xor (bit_xor x y) p
xor_swap x p y = rw (xor_assoc x p y, xor_assoc x y p, xor_comm p y) refl

pub xor_cancel : (x y p : ℕ) → bit_xor (bit_xor x p) (bit_xor y p) ≡ bit_xor x y
xor_cancel x y p =
    rw (xor_swap x p (bit_xor y p), sym (xor_assoc x y p)) (xor_twice (bit_xor x y) p)

-- `n` halvings.
abbrev halves : ℕ → ℕ → ℕ
halves zero a = a
halves (suc n) a = halves n (a / 2)

xor-halves : (n a b : ℕ) → halves n (bit_xor a b) ≡ bit_xor (halves n a) (halves n b)
xor-halves zero a b = refl
xor-halves (suc n) a b = ap (halves n) (xor_half a b) ∙ xor-halves n (a / 2) (b / 2)

halves_byte : (a : ℕ) → halves 8 a ≡ a / 2 ^ 8
halves_byte a = omega arith

-- A shift by a byte.
pub xor_byte : (a b : ℕ) → bit_xor a b / 2 ^ 8 ≡ bit_xor (a / 2 ^ 8) (b / 2 ^ 8)
xor_byte a b =
    rw (sym (halves_byte (bit_xor a b)), xor-halves 8 a b, halves_byte a, halves_byte b) refl

pub double_power : (q k : ℕ) → q * 2 ^ suc k ≡ 2 * (q * 2 ^ k)
double_power q k = omega (arith, ap (λ (t : ℕ). q * t) (pow-suc 2 k))

-- Fields that do not overlap are added.
pub xor_fields : (k q r : ℕ) → r < 2 ^ k → bit_xor (q * 2 ^ k) r ≡ q * 2 ^ k + r
xor_fields zero q zero h = omega (arith, xor-zero (q * 1))
xor_fields zero q (suc r) h = absurd (omega arith)
xor_fields (suc k) q r h = ground (
  arith,
  xor_step (q * 2 ^ suc k) r,
  double_power q k,
  pow-suc 2 k,
  xor_fields k q (r / 2) (omega (arith, pow-suc 2 k)),
)
