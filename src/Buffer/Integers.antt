-- ===== src/Buffer/Integers.antt =====
-- The bytes of an integer and the integer of its bytes, in either order.
use Prim.Native.Nat.{bit_or}
use native.Mathlib.Nat.{
  div-add-mod, mul-add-mod_self_left, mod-eq_of_lt, mod-lt, pow-suc, one-le-pow,
}
use platform_rte.Prelude.{
  ℕ, zero, suc, ◌+◌, ◌*◌, ◌/◌, ◌%◌, ◌^◌, ◌<◌, ◌≤◌, ◌≡◌, ◌∙◌, refl, sym, ap, ap₂, arith, length,
  or_above, or_below,
}
use platform_rte.Buffer.{
  Order, le, be, Width, size_of, byte_at, little_bytes, little_value, big_bytes, big_value,
  bytes_of, value_of,
}

regroup : (m q₂ r₂ r : ℕ) → m * (256 * q₂ + r₂) + r ≡ m * 256 * q₂ + (r + r₂ * m)
regroup m q₂ r₂ r = grind arith

small : (m r r₂ : ℕ) → r < m → r₂ < 256 → r + r₂ * m < m * 256
small m r r₂ h k = grind arith

mod_split : (m v : ℕ) → 1 ≤ m → v % (m * 256) ≡ v % m + v / m % 256 * m
mod_split m v h =
    let q = v / m in
    let e : v ≡ m * 256 * (q / 256) + (v % m + q % 256 * m) =
      sym (div-add-mod v m)
      ∙ ap (λ (x : ℕ). m * x + v % m) (sym (div-add-mod q 256))
      ∙ regroup m (q / 256) (q % 256) (v % m) in
    ap (λ (x : ℕ). x % (m * 256)) e
    ∙ mul-add-mod_self_left (m * 256) (q / 256) (v % m + q % 256 * m)
    ∙ mod-eq_of_lt (small m (v % m) (q % 256) (mod-lt v h) (omega arith))

pow_byte_suc : (s : ℕ) → 2 ^ suc (suc (suc (suc (suc (suc (suc (suc s))))))) ≡ 2 ^ s * 256
pow_byte_suc s = omega (
  arith,
  pow-suc 2 s,
  pow-suc 2 (suc s),
  pow-suc 2 (suc (suc s)),
  pow-suc 2 (suc (suc (suc s))),
  pow-suc 2 (suc (suc (suc (suc s)))),
  pow-suc 2 (suc (suc (suc (suc (suc s))))),
  pow-suc 2 (suc (suc (suc (suc (suc (suc s)))))),
  pow-suc 2 (suc (suc (suc (suc (suc (suc (suc s))))))),
)

pow_byte : (s : ℕ) → 2 ^ (s + 8) ≡ 2 ^ s * 256
pow_byte s = ap (λ (e : ℕ). 2 ^ e) (omega arith) ∙ pow_byte_suc s

pow_positive : (s : ℕ) → 1 ≤ 2 ^ s
pow_positive s = one-le-pow s 2 (omega arith)

-- A byte comes in above the bits that are there.
little_step : (v s : ℕ) → bit_or (v % 2 ^ s) (byte_at v s * 2 ^ s) ≡ v % 2 ^ (s + 8)
little_step v s =
    or_above s (v % 2 ^ s) (byte_at v s) (mod-lt v (pow_positive s))
    ∙ sym (mod_split (2 ^ s) v (pow_positive s))
    ∙ ap (λ (m : ℕ). v % m) (sym (pow_byte s))

little_round : (v s n : ℕ) → little_value (v % 2 ^ s) s (little_bytes v s n) ≡ v % 2 ^ (s + 8 * n)
unfolding little_value little_bytes
little_round v s zero = ap (λ (e : ℕ). v % 2 ^ e) (omega arith)
little_round v s (suc n) =
    ap (λ (x : ℕ). little_value x (s + 8) (little_bytes v (s + 8) n)) (little_step v s)
    ∙ little_round v (s + 8) n
    ∙ ap (λ (e : ℕ). v % 2 ^ e) (omega arith)

byte_split : (v k : ℕ) → byte_at v k * 2 ^ k + v % 2 ^ k ≡ v % 2 ^ (k + 8)
byte_split v k =
    omega (arith, mod_split (2 ^ k) v (pow_positive k), ap (λ (m : ℕ). v % m) (pow_byte k))

byte_fits : (v k : ℕ) → byte_at v k * 2 ^ k < 2 ^ (k + 8)
byte_fits v k =
    omega (arith, small (2 ^ k) 0 (byte_at v k) (pow_positive k) (omega arith), pow_byte k)

shift_in : (h b p : ℕ) → h * (p * 256) + b * p ≡ (h * 256 + b) * p
shift_in h b p = grind arith

shift_out : (h b p r : ℕ) → (h * 256 + b) * p + r ≡ h * (p * 256) + (b * p + r)
shift_out h b p r = grind arith

-- A byte comes in below the bits that are there.
big_step :
    (h v k : ℕ) → bit_or (h * 2 ^ (k + 8)) (byte_at v k * 2 ^ k) ≡ (h * 256 + byte_at v k) * 2 ^ k
big_step h v k =
    or_below (k + 8) h (byte_at v k * 2 ^ k) (byte_fits v k)
    ∙ ap (λ (m : ℕ). h * m + byte_at v k * 2 ^ k) (pow_byte k)
    ∙ shift_in h (byte_at v k) (2 ^ k)

length-big_bytes : (v n : ℕ) → length (big_bytes v n) ≡ n
unfolding big_bytes
length-big_bytes v zero = refl
length-big_bytes v (suc n) = ap suc (length-big_bytes v n)

length-little_bytes : (v s n : ℕ) → length (little_bytes v s n) ≡ n
unfolding little_bytes
length-little_bytes v s zero = refl
length-little_bytes v s (suc n) = ap suc (length-little_bytes v (s + 8) n)

big_round :
    (h v n : ℕ) → big_value (h * 2 ^ (8 * n)) (big_bytes v n) ≡ h * 2 ^ (8 * n) + v % 2 ^ (8 * n)
unfolding big_value big_bytes
big_round h v zero = omega arith
big_round h v (suc n) =
    let k = 8 * n in
    ap₂ (λ (e l : ℕ). big_value (bit_or (h * 2 ^ e) (byte_at v k * 2 ^ (8 * l))) (big_bytes v n))
      (omega arith) (length-big_bytes v n)
    ∙ ap (λ (x : ℕ). big_value x (big_bytes v n)) (big_step h v k)
    ∙ big_round (h * 256 + byte_at v k) v n
    ∙ shift_out h (byte_at v k) (2 ^ k) (v % 2 ^ k)
    ∙ ap₂ (λ (p r : ℕ). h * p + r) (sym (pow_byte k)) (byte_split v k)
    ∙ ap (λ (e : ℕ). h * 2 ^ e + v % 2 ^ e) (omega arith)

-- The value of the bytes of an integer that fits the width is that integer.
pub value_of-bytes_of :
    (o : Order) (w : Width) (v : ℕ) → v < 2 ^ (8 * size_of w) → value_of o (bytes_of o w v) ≡ v
unfolding value_of bytes_of
value_of-bytes_of le w v h =
    ap (λ (x : ℕ). little_value x 0 (little_bytes v 0 (size_of w))) (omega arith)
    ∙ little_round v 0 (size_of w)
    ∙ ap (λ (e : ℕ). v % 2 ^ e) (omega arith)
    ∙ mod-eq_of_lt h
value_of-bytes_of be w v h =
    ap (λ (x : ℕ). big_value x (big_bytes v (size_of w))) (omega arith)
    ∙ big_round 0 v (size_of w)
    ∙ omega (arith, mod-eq_of_lt h)

pub length-bytes_of : (o : Order) (w : Width) (v : ℕ) → length (bytes_of o w v) ≡ size_of w
unfolding bytes_of
length-bytes_of le w v = length-little_bytes v 0 (size_of w)
length-bytes_of be w v = length-big_bytes v (size_of w)
