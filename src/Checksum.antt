-- ===== src/Checksum.antt =====
-- rte_checksum.c: the CRC-64 of byte strings from lookup tables, and the messages that carry one.
-- The statics of the module are passed explicitly.
pub mod Tables
pub mod Bitwise
pub mod Detection
pub mod Messages
mod Tests
use Prim.Native.Nat.{bit_xor}
use platform_rte.Prelude.{
  ℕ, zero, suc, ◌+◌, ◌-◌, ◌/◌, ◌%◌, ◌^◌, List, [], ◌∷◌, ◌++◌, Option, none, some, Bool, true, false,
  not, ltb, ◌==◌, if◌then◌else◌, length, get_or, take, replicate, u8, u32,
}
use platform_rte.Platform.Status.{
  Status, ok, invalid_param, not_initialized, already_initialized, data_corruption, Array, null,
  elements, count,
}
use platform_rte.Checksum.Tables.{ertms_table, iso_table, xz_table}

-- `rte_crc64_polynomial_t`; `other` is a value that the enumeration does not name.
pub data Polynomial : Type 0 where
  ertms : Polynomial
  iso : Polynomial
  xz : Polynomial
  other : ℕ → Polynomial

-- `rte_checksum_stats_t`, with uint32_t counters.
pub record Stats : Type 0 where
  pub total_checksums : ℕ
  pub verification_passes : ℕ
  pub verification_failures : ℕ
  pub sequence_errors : ℕ
  pub payload_oversize : ℕ

-- `rte_checksum_manager_t`; the table is `none` for NULL.
pub record ChecksumManager : Type 0 where
  pub initialized : Bool
  pub polynomial : Polynomial
  pub table : Option (List ℕ)
  pub stats : Stats

abbrev pub zero_stats : Stats
zero_stats = record {
  total_checksums = 0;
  verification_passes = 0;
  verification_failures = 0;
  sequence_errors = 0;
  payload_oversize = 0;
}

-- The table that the `switch` of `rte_checksum_crc64_init` selects.
unfoldable pub table_of : Polynomial → Option (List ℕ)
table_of ertms = some ertms_table
table_of iso = some iso_table
table_of xz = some xz_table
table_of (other n) = none

select : ChecksumManager → Polynomial → Option (List ℕ) → Status × ChecksumManager
select m p none = (invalid_param, m)
select m p (some t) =
    (ok, record { initialized = true; polynomial = p; table = some t; stats = zero_stats })

-- `rte_checksum_crc64_init`
unfoldable pub crc64_init : ChecksumManager → Polynomial → Status × ChecksumManager
unfolding select
crc64_init m p = if m.initialized then (already_initialized, m) else select m p (table_of p)

abbrev pub all_ones : ℕ
all_ones = 0xffffffffffffffff

-- One round of the loop of `rte_checksum_crc64`. The entry is in range: a table has 256 of them.
unfoldable pub crc_step : List ℕ → ℕ → ℕ → ℕ
crc_step table crc d = bit_xor (crc / 2 ^ 8) (get_or table (u8 (bit_xor crc d)) 0)

unfoldable pub crc_loop : List ℕ → ℕ → List ℕ → ℕ
crc_loop table crc [] = crc
crc_loop table crc (d ∷ ds) = crc_loop table (crc_step table crc d) ds

-- The checksum of some bytes by a table.
unfoldable pub crc_of : List ℕ → List ℕ → ℕ
crc_of table ds = bit_xor (crc_loop table all_ones ds) all_ones

crc64_bytes : ChecksumManager → Option (List ℕ) → List ℕ → ℕ × ChecksumManager
unfolding crc_of
crc64_bytes m none ds = (0, m)
crc64_bytes m (some table) ds = (
  crc_of table ds,
  record m { stats = record (m.stats) { total_checksums = u32 (m.stats.total_checksums + 1) } },
)

crc64_data : ChecksumManager → Array ℕ → ℕ × ChecksumManager
unfolding crc64_bytes
crc64_data m (null zero) = (all_ones, m)
crc64_data m (null (suc n)) = (0, m)
crc64_data m (elements ds) = crc64_bytes m m.table ds

-- `rte_checksum_crc64`
unfoldable pub crc64 : ChecksumManager → Array ℕ → ℕ × ChecksumManager
unfolding crc64_data
crc64 m bytes = if m.initialized then crc64_data m bytes else (0, m)

-- `rte_checksum_result_t`
pub record ChecksumResult : Type 0 where
  pub computed : ℕ
  pub expected : ℕ
  pub matches : Bool

abbrev pub count_pass : Stats → Stats
count_pass s = record s { verification_passes = u32 (s.verification_passes + 1) }

abbrev pub count_failure : Stats → Stats
count_failure s = record s { verification_failures = u32 (s.verification_failures + 1) }

-- `rte_checksum_crc64_verify` with a place for the result that is not NULL.
unfoldable pub crc64_verify :
    ChecksumManager → Array ℕ → ℕ → Status × ChecksumResult × ChecksumManager
unfolding crc64
crc64_verify m bytes expected =
    let (crc, m') = crc64 m bytes in
    if not m.initialized
    then (not_initialized, record { computed = 0; expected = expected; matches = false }, m)
    else if crc == expected
    then (
      ok,
      record { computed = crc; expected = expected; matches = true },
      record m' { stats = count_pass m'.stats },
    )
    else (
      data_corruption,
      record { computed = crc; expected = expected; matches = false },
      record m' { stats = count_failure m'.stats },
    )

-- `rte_checksum_crc64_get_polynomial`, `rte_checksum_get_stats` and `rte_checksum_reset_stats`
pub get_polynomial : ChecksumManager → Polynomial
get_polynomial m = m.polynomial

pub get_stats : ChecksumManager → Status × Stats
get_stats m = (ok, m.stats)

pub reset_stats : ChecksumManager → Status × ChecksumManager
reset_stats m = (ok, record m { stats = zero_stats })
