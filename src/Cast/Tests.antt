-- ===== src/Cast/Tests.antt =====
-- Runs of rte_cast.c, and examples of the theorems on it.
use platform_rte.Prelude.{
  ℕ, ◌-◌, ◌+◌, ◌^◌, ◌≡◌, ◌≢◌, refl, [], ◌∷◌, none, some, true, false, arith, if◌then◌else◌,
}
use platform_rte.Prelude.Int.{pos, negsuc}
use platform_rte.Platform.Status.{ok, value_out_of_range, invalid_param}
use platform_rte.Platform.Violation.{reported, overflow, out_of_range}
use platform_rte.Cast.{
  i8, i16, i32, u8, u16, u64, size, cast, checked_sub_u32, checked_mul_u32, checked_add_size,
  checked_sub_size, checked_mul_size, bounds_check,
}
use platform_rte.Cast.Ranges.{cast_exact, holds, Exact, checked_size-Exact}

abbrev size_max : ℕ
size_max = 2 ^ 32 - 1

wide_to_size :
    cast size_max u64 size (pos (2 ^ 32)) (some (pos 7)) ≡ some (value_out_of_range, some (pos 7))
unfolding cast
wide_to_size = refl

negative : cast size_max i32 i8 (negsuc 127) (some (pos 7)) ≡ some (ok, some (negsuc 127))
unfolding cast
negative = refl

no_output : cast size_max i32 u16 (pos 1) none ≡ some (invalid_param, none)
unfolding cast
no_output = refl

differ : i16 ≢ u8
differ = ground arith

cast_exact_example :
    cast size_max i16 u8 (pos 300) (some (pos 7))
    ≡ some (
        if holds size_max u8 (pos 300)
        then (ok, some (pos 300))
        else (value_out_of_range, some (pos 7)))
cast_exact_example = cast_exact size_max i16 u8 (pos 300) (pos 7) (omega arith) differ refl

checked_size-Exact_example :
    Exact
      (some 4)
      9
      false
      (2 ^ 31 + 2 ^ 31)
      (checked_add_size size_max (some 4) (2 ^ 31) (2 ^ 31) (some 9))
    × Exact (some 4) 9 true 0 (checked_sub_size size_max (some 4) (2 ^ 31) (2 ^ 31) (some 9))
    × Exact
        (some 4)
        9
        false
        (2 ^ 62)
        (checked_mul_size size_max (some 4) (2 ^ 31) (2 ^ 31) (some 9))
checked_size-Exact_example =
    checked_size-Exact size_max (some 4) (2 ^ 31) (2 ^ 31) 9 (omega arith) (omega arith)

product :
    checked_mul_u32 (some 4) (2 ^ 31) 2 (some 9)
    ≡ (value_out_of_range, some 9, reported 4 overflow ∷ [])
unfolding checked_mul_u32
product = refl

difference : checked_sub_u32 none 5 3 (some 9) ≡ (ok, some 2, [])
unfolding checked_sub_u32
difference = refl

bounds : bounds_check (some 4) 8 8 ≡ (value_out_of_range, reported 4 out_of_range ∷ [])
unfolding bounds_check
bounds = refl
