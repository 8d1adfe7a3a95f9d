-- ===== src/Cast/Ranges.antt =====
-- The checked conversions and operations give the true result whenever the type can hold it.
use native.Mathlib.Nat.{mod-eq_of_lt, div-lt_iff_lt-mul, mul_comm, zero-mul}
use platform_rte.Prelude.{
  ℕ, zero, suc, ◌+◌, ◌-◌, ◌*◌, ◌/◌, ◌^◌, ◌≤◌, ◌<◌, ◌≡◌, refl, ap, ◌%◌, List, [], Option, none, some,
  Bool, true, false, not, ◌&&◌, ltb, leb, ◌==◌, if◌then◌else◌, arith, ◌≢◌, Option-cases, Bool-cases,
  ◌∙◌, inl, inr,
}
use platform_rte.Prelude.Int.{ℤ, pos, negsuc, ltb_ℤ}
use platform_rte.Platform.Status.{ok, value_out_of_range}
use platform_rte.Platform.Violation.{report, overflow}
use platform_rte.Cast.{
  IntType, i8, size, Guard, guards, min_of, max_of, violates_any, convert, cast, cast_if, cast_with,
  Checked, checked, checked_add_u32, checked_sub_u32, checked_mul_u32, checked_add_size,
  checked_sub_size, checked_mul_size,
}

-- Whether a type holds a value.
abbrev pub holds : ℕ → IntType → ℤ → Bool
holds size_max d v = not (ltb_ℤ v (min_of d)) && not (ltb_ℤ (pos (max_of size_max d)) v)

to_unsigned_id : (m n : ℕ) → n < m → n % m ≡ n
to_unsigned_id m n h = mod-eq_of_lt h

convert_id :
    (size_max : ℕ) (d : IntType) (v : ℤ) → holds size_max d v ≡ true → convert size_max d v ≡ v
unfolding convert
convert_id size_max i8 (pos n) h = ground arith
convert_id size_max i8 (negsuc n) h = ground arith
convert_id size_max size (pos n) h = ap pos (to_unsigned_id (size_max + 1) n (ground arith))
convert_id size_max d (pos n) h = ground arith
convert_id size_max d (negsuc n) h = ground arith

-- The tests of a conversion find exactly the values that the type cannot hold.
guards_exact :
    (size_max : ℕ) (s d : IntType) (v : ℤ) (gs : List Guard)
    → size_max < 2 ^ 64
    → holds size_max s v ≡ true
    → guards s d ≡ some gs
    → violates_any size_max d v gs ≡ not (holds size_max d v)
unfolding guards violates_any
guards_exact size_max i8 i8 v gs small h e = ground arith
guards_exact size_max s d v gs small h e = ground arith

cast_with_exact :
    (size_max : ℕ) (d : IntType) (v : ℤ) (gs : List Guard) (old : ℤ)
    → violates_any size_max d v gs ≡ not (holds size_max d v)
    → cast_with size_max d v gs (some old)
      ≡ (if holds size_max d v then (ok, some v) else (value_out_of_range, some old))
unfolding cast_with
cast_with_exact size_max d v gs old e = elim (Bool-cases (holds size_max d v)) [
  | inl fits ↦ rw (e, fits) (ap (λ (x : ℤ). (ok, some x)) (convert_id size_max d v fits))
  | inr over ↦ rw (e, over)
]

guards_none : (s d : IntType) → guards s d ≡ none → s ≡ d
unfolding guards
guards_none i8 i8 e = refl
guards_none s d e = ground arith

-- A checked conversion between two different types of a value that the first holds: it gives the value
-- itself if the second type holds it, and otherwise VALUE_OUT_OF_RANGE, with the output as it was.
pub cast_exact :
    (size_max : ℕ) (s d : IntType) (v old : ℤ)
    → size_max < 2 ^ 64
    → s ≢ d
    → holds size_max s v ≡ true
    → cast size_max s d v (some old)
      ≡ some (if holds size_max d v then (ok, some v) else (value_out_of_range, some old))
unfolding cast
cast_exact size_max s d v old small differ h = elim (Option-cases (guards s d)) [
  | inl e ↦ absurd (differ (guards_none s d e))
  | inr (gs, e) ↦
      ap (cast_if size_max d v (some old)) e
      ∙ ap some (cast_with_exact size_max d v gs old (guards_exact size_max s d v gs small h e))
]

mul_small : (a b : ℕ) → a < 2 ^ 32 → b < 2 ^ 32 → a * b < 2 ^ 64
mul_small a b ha hb = grind arith

-- The outcome that gives the result if it fits, and otherwise reports an overflow.
abbrev pub Exact : Option ℕ → ℕ → Bool → ℕ → Checked → Type 0
Exact handler old fits result o = o ≡ (
    if fits then (ok, some result, []) else (value_out_of_range, some old, report handler overflow))

-- A checked operation on two values of uint32_t, with an output to write: its true result if uint32_t
-- holds it, and otherwise VALUE_OUT_OF_RANGE, a report of an overflow, and the output as it was.
pub checked_u32-Exact :
    (handler : Option ℕ) (a b old : ℕ)
    → a < 2 ^ 32
    → b < 2 ^ 32
    → Exact handler old (ltb (a + b) (2 ^ 32)) (a + b) (checked_add_u32 handler a b (some old))
      × Exact handler old (leb b a) (a - b) (checked_sub_u32 handler a b (some old))
      × Exact handler old (ltb (a * b) (2 ^ 32)) (a * b) (checked_mul_u32 handler a b (some old))
unfolding checked_add_u32 checked_sub_u32 checked_mul_u32
checked_u32-Exact handler a b old ha hb =
    (ground arith, ground arith, ground (arith, mul_small a b ha hb))

exact :
    (handler : Option ℕ) (old : ℕ) (bad fits : Bool) (given result : ℕ)
    → bad ≡ not fits
    → (fits ≡ true → given ≡ result)
    → Exact handler old fits result (checked handler (some old) bad given)
exact handler old bad true given result e f = rw e (ap (λ (n : ℕ). (ok, some n, [])) (f refl))
exact handler old bad false given result e f = rw e refl

wraps_once : (n m : ℕ) → n < m → (n + m) % m ≡ n
wraps_once n m h = grind arith

-- `b` is above the quotient exactly if the product is out of range.
above_quotient :
    (size_max a b : ℕ) → (not (a == 0) && ltb (size_max / a) b) ≡ not (leb (a * b) size_max)
above_quotient size_max zero b = ground (arith, zero-mul b)
above_quotient size_max (suc a) b =
    let pos : 0 < suc a = omega arith in
    let (up, down) = div-lt_iff_lt-mul {k = suc a} {x = size_max} {y = b} pos in
    ground (arith, up, down, mul_comm b (suc a))

-- A checked operation on two values of size_t, with an output to write: its true result if size_t holds
-- it, and otherwise VALUE_OUT_OF_RANGE, a report of an overflow, and the output as it was.
pub checked_size-Exact :
    (size_max : ℕ) (handler : Option ℕ) (a b old : ℕ)
    → a ≤ size_max
    → b ≤ size_max
    → Exact handler old
        (leb (a + b) size_max)
        (a + b)
        (checked_add_size size_max handler a b (some old))
      × Exact handler old (leb b a) (a - b) (checked_sub_size size_max handler a b (some old))
      × Exact handler old
          (leb (a * b) size_max)
          (a * b)
          (checked_mul_size size_max handler a b (some old))
unfolding checked_add_size checked_sub_size checked_mul_size
checked_size-Exact size_max handler a b old ha hb = (
  exact handler old (ltb (size_max - a) b) (leb (a + b) size_max) ((a + b) % (size_max + 1)) (a + b)
      (ground arith) (λ fits. mod-eq_of_lt (ground arith)),
  exact handler old (ltb a b) (leb b a) ((a + (size_max + 1) - b) % (size_max + 1)) (a - b)
      (ground arith)
      (λ fits.
        let e : a + (size_max + 1) - b ≡ a - b + (size_max + 1) = ground arith in
        ap (λ (n : ℕ). n % (size_max + 1)) e ∙ wraps_once (a - b) (size_max + 1) (omega arith)),
  exact handler old (not (a == 0) && ltb (size_max / a) b) (leb (a * b) size_max)
      ((a * b) % (size_max + 1)) (a * b) (above_quotient size_max a b)
      (λ fits. mod-eq_of_lt (ground arith)),
)
