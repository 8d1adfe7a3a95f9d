-- ===== src/Cast.antt =====
-- rte_cast.c: conversions between the integer types that are checked, and checked arithmetic.
-- SIZE_MAX is a parameter. An output is `none` for a NULL pointer and otherwise what it points at.
pub mod Ranges
mod Tests
use platform_rte.Prelude.{
  ℕ, ◌+◌, ◌-◌, ◌*◌, ◌/◌, ◌%◌, ◌^◌, List, [], ◌∷◌, Option, none, some, Bool, true, false, not, ◌&&◌,
  ◌||◌, ltb, leb, ◌==◌, if◌then◌else◌,
}
use platform_rte.Prelude.Int.{ℤ, pos, negsuc, ltb_ℤ}
use platform_rte.Platform.Status.{Status, ok, invalid_param, value_out_of_range}
use platform_rte.Platform.Violation.{Report, report, overflow, out_of_range}

-- The types that the functions convert from and to.
pub data IntType : Type 0 where
  i8 : IntType
  i16 : IntType
  i32 : IntType
  i64 : IntType
  u8 : IntType
  u16 : IntType
  u32 : IntType
  u64 : IntType
  size : IntType

-- A test that leads to VALUE_OUT_OF_RANGE; `above_size` stands under `#if SIZE_MAX < UINT64_MAX`.
pub data Guard : Type 0 where
  below_zero : Guard
  below_min : Guard
  above_max : Guard
  above_size : Guard

-- The tests of `rte_cast_<s>_to_<d>`, in order, by source type; there is no such function from a type to
-- itself.
abbrev pub from_i8 : IntType → Option (List Guard)
from_i8 i8 = none
from_i8 i16 = some []
from_i8 i32 = some []
from_i8 i64 = some []
from_i8 u8 = some (below_zero ∷ [])
from_i8 u16 = some (below_zero ∷ [])
from_i8 u32 = some (below_zero ∷ [])
from_i8 u64 = some (below_zero ∷ [])
from_i8 size = some (below_zero ∷ above_size ∷ [])

abbrev pub from_i16 : IntType → Option (List Guard)
from_i16 i8 = some (below_min ∷ above_max ∷ [])
from_i16 i16 = none
from_i16 i32 = some []
from_i16 i64 = some []
from_i16 u8 = some (below_zero ∷ above_max ∷ [])
from_i16 u16 = some (below_zero ∷ [])
from_i16 u32 = some (below_zero ∷ [])
from_i16 u64 = some (below_zero ∷ [])
from_i16 size = some (below_zero ∷ above_size ∷ [])

abbrev pub from_i32 : IntType → Option (List Guard)
from_i32 i8 = some (below_min ∷ above_max ∷ [])
from_i32 i16 = some (below_min ∷ above_max ∷ [])
from_i32 i32 = none
from_i32 i64 = some []
from_i32 u8 = some (below_zero ∷ above_max ∷ [])
from_i32 u16 = some (below_zero ∷ above_max ∷ [])
from_i32 u32 = some (below_zero ∷ [])
from_i32 u64 = some (below_zero ∷ [])
from_i32 size = some (below_zero ∷ above_size ∷ [])

abbrev pub from_i64 : IntType → Option (List Guard)
from_i64 i8 = some (below_min ∷ above_max ∷ [])
from_i64 i16 = some (below_min ∷ above_max ∷ [])
from_i64 i32 = some (below_min ∷ above_max ∷ [])
from_i64 i64 = none
from_i64 u8 = some (below_zero ∷ above_max ∷ [])
from_i64 u16 = some (below_zero ∷ above_max ∷ [])
from_i64 u32 = some (below_zero ∷ above_max ∷ [])
from_i64 u64 = some (below_zero ∷ [])
from_i64 size = some (below_zero ∷ above_size ∷ [])

abbrev pub from_u8 : IntType → Option (List Guard)
from_u8 i8 = some (above_max ∷ [])
from_u8 i16 = some []
from_u8 i32 = some []
from_u8 i64 = some []
from_u8 u8 = none
from_u8 u16 = some []
from_u8 u32 = some []
from_u8 u64 = some []
from_u8 size = some (above_size ∷ [])

abbrev pub from_u16 : IntType → Option (List Guard)
from_u16 i8 = some (above_max ∷ [])
from_u16 i16 = some (above_max ∷ [])
from_u16 i32 = some []
from_u16 i64 = some []
from_u16 u8 = some (above_max ∷ [])
from_u16 u16 = none
from_u16 u32 = some []
from_u16 u64 = some []
from_u16 size = some (above_size ∷ [])

abbrev pub from_u32 : IntType → Option (List Guard)
from_u32 i8 = some (above_max ∷ [])
from_u32 i16 = some (above_max ∷ [])
from_u32 i32 = some (above_max ∷ [])
from_u32 i64 = some []
from_u32 u8 = some (above_max ∷ [])
from_u32 u16 = some (above_max ∷ [])
from_u32 u32 = none
from_u32 u64 = some []
from_u32 size = some (above_size ∷ [])

abbrev pub from_u64 : IntType → Option (List Guard)
from_u64 i8 = some (above_max ∷ [])
from_u64 i16 = some (above_max ∷ [])
from_u64 i32 = some (above_max ∷ [])
from_u64 i64 = some (above_max ∷ [])
from_u64 u8 = some (above_max ∷ [])
from_u64 u16 = some (above_max ∷ [])
from_u64 u32 = some (above_max ∷ [])
from_u64 u64 = none
from_u64 size = some (above_size ∷ [])

abbrev pub from_size : IntType → Option (List Guard)
from_size i8 = some (above_max ∷ [])
from_size i16 = some (above_max ∷ [])
from_size i32 = some (above_max ∷ [])
from_size i64 = some (above_max ∷ [])
from_size u8 = some (above_max ∷ [])
from_size u16 = some (above_max ∷ [])
from_size u32 = some (above_max ∷ [])
from_size u64 = some []
from_size size = none

unfoldable pub guards : IntType → IntType → Option (List Guard)
guards i8 d = from_i8 d
guards i16 d = from_i16 d
guards i32 d = from_i32 d
guards i64 d = from_i64 d
guards u8 d = from_u8 d
guards u16 d = from_u16 d
guards u32 d = from_u32 d
guards u64 d = from_u64 d
guards size d = from_size d

-- The bounds of a type, `_MIN` and `_MAX` of stdint.h; that of size_t is the parameter.
abbrev pub min_of : IntType → ℤ
min_of i8 = negsuc (2 ^ 7 - 1)
min_of i16 = negsuc (2 ^ 15 - 1)
min_of i32 = negsuc (2 ^ 31 - 1)
min_of i64 = negsuc (2 ^ 63 - 1)
min_of _ = pos 0

abbrev pub max_of : ℕ → IntType → ℕ
max_of size_max i8 = 2 ^ 7 - 1
max_of size_max i16 = 2 ^ 15 - 1
max_of size_max i32 = 2 ^ 31 - 1
max_of size_max i64 = 2 ^ 63 - 1
max_of size_max u8 = 2 ^ 8 - 1
max_of size_max u16 = 2 ^ 16 - 1
max_of size_max u32 = 2 ^ 32 - 1
max_of size_max u64 = 2 ^ 64 - 1
max_of size_max size = size_max

abbrev is_signed : IntType → Bool
is_signed i8 = true
is_signed i16 = true
is_signed i32 = true
is_signed i64 = true
is_signed _ = false

-- The C conversion to a type: a value that an unsigned type cannot hold is reduced. For a signed type
-- such a value is implementation-defined in C; it is reduced too, to the same width.
to_unsigned : ℕ → ℤ → ℤ
to_unsigned modulus (pos n) = pos (n % modulus)
to_unsigned modulus (negsuc n) = pos (modulus - 1 - n % modulus)

to_signed : ℕ → ℤ → ℤ
to_signed half (pos n) =
    let m = n % (half + half) in if ltb m half then pos m else negsuc (half + half - 1 - m)
to_signed half (negsuc n) =
    let m = n % (half + half) in if ltb m half then negsuc m else pos (half + half - 1 - m)

unfoldable pub convert : ℕ → IntType → ℤ → ℤ
unfolding to_unsigned to_signed
convert size_max d v =
    if is_signed d
    then to_signed (max_of size_max d + 1) v
    else to_unsigned (max_of size_max d + 1) v

-- Whether a test finds the value out of range.
unfoldable pub violates : ℕ → IntType → ℤ → Guard → Bool
violates size_max d v below_zero = ltb_ℤ v (pos 0)
violates size_max d v below_min = ltb_ℤ v (min_of d)
violates size_max d v above_max = ltb_ℤ (pos (max_of size_max d)) v
violates size_max d v above_size = ltb size_max (2 ^ 64 - 1) && ltb_ℤ (pos size_max) v

unfoldable pub violates_any : ℕ → IntType → ℤ → List Guard → Bool
unfolding violates
violates_any size_max d v [] = false
violates_any size_max d v (g ∷ gs) = violates size_max d v g || violates_any size_max d v gs

-- A conversion with these tests: the status, and the output.
unfoldable pub cast_with : ℕ → IntType → ℤ → List Guard → Option ℤ → Status × Option ℤ
unfolding violates_any convert
cast_with size_max d v gs none = (invalid_param, none)
cast_with size_max d v gs (some old) =
    if violates_any size_max d v gs
    then (value_out_of_range, some old)
    else (ok, some (convert size_max d v))

-- The tests, where there is such a function.
unfoldable pub cast_if :
    ℕ → IntType → ℤ → Option ℤ → Option (List Guard) → Option (Status × Option ℤ)
unfolding cast_with
cast_if size_max d v out none = none
cast_if size_max d v out (some gs) = some (cast_with size_max d v gs out)

-- `rte_cast_<s>_to_<d>`; `none` where there is no such function.
unfoldable pub cast : ℕ → IntType → IntType → ℤ → Option ℤ → Option (Status × Option ℤ)
unfolding guards cast_if
cast size_max s d v out = cast_if size_max d v out (guards s d)

-- The outcome of a checked operation: the status, the output, and the reports to the handler.
abbrev pub Checked : Type 0
Checked = Status × Option ℕ × List Report

-- The end of each operation: a violation is reported and leaves the output alone.
abbrev pub checked : Option ℕ → Option ℕ → Bool → ℕ → Checked
checked handler none bad result = (invalid_param, none, [])
checked handler (some old) bad result =
    if bad then (value_out_of_range, some old, report handler overflow) else (ok, some result, [])

-- `rte_cast_checked_add_u32`, `_sub_u32` and `_mul_u32`; the first and the last compute in 64 bits.
unfoldable pub checked_add_u32 : Option ℕ → ℕ → ℕ → Option ℕ → Checked
unfolding report
checked_add_u32 handler a b out =
    let widened = (a + b) % 2 ^ 64 in
    checked handler out (ltb (2 ^ 32 - 1) widened) (widened % 2 ^ 32)

unfoldable pub checked_sub_u32 : Option ℕ → ℕ → ℕ → Option ℕ → Checked
unfolding report
checked_sub_u32 handler a b out = checked handler out (ltb a b) ((a + 2 ^ 32 - b) % 2 ^ 32)

unfoldable pub checked_mul_u32 : Option ℕ → ℕ → ℕ → Option ℕ → Checked
unfolding report
checked_mul_u32 handler a b out =
    let widened = (a * b) % 2 ^ 64 in
    checked handler out (ltb (2 ^ 32 - 1) widened) (widened % 2 ^ 32)

-- `rte_cast_checked_add_size`, `_sub_size` and `_mul_size`; the operands are of the type, so that
-- `SIZE_MAX - a` does not wrap.
unfoldable pub checked_add_size : ℕ → Option ℕ → ℕ → ℕ → Option ℕ → Checked
unfolding report
checked_add_size size_max handler a b out =
    checked handler out (ltb (size_max - a) b) ((a + b) % (size_max + 1))

unfoldable pub checked_sub_size : ℕ → Option ℕ → ℕ → ℕ → Option ℕ → Checked
unfolding report
checked_sub_size size_max handler a b out =
    checked handler out (ltb a b) ((a + (size_max + 1) - b) % (size_max + 1))

unfoldable pub checked_mul_size : ℕ → Option ℕ → ℕ → ℕ → Option ℕ → Checked
unfolding report
checked_mul_size size_max handler a b out =
    checked handler out (not (a == 0) && ltb (size_max / a) b) ((a * b) % (size_max + 1))

-- `rte_cast_bounds_check`
unfoldable pub bounds_check : Option ℕ → ℕ → ℕ → Status × List Report
unfolding report
bounds_check handler index count =
    if leb count index then (value_out_of_range, report handler out_of_range) else (ok, [])
