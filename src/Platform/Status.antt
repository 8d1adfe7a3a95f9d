-- ===== src/Platform/Status.antt =====
-- `rte_status_t` of include/rte/utils/status/rte_status.h, and the pointers and arrays of arguments.
use platform_rte.Prelude.{ℕ, List, Bool, true, false, length}

pub data Status : Type 0 where
  ok : Status
  invalid_param : Status
  not_initialized : Status
  already_initialized : Status
  timeout : Status
  resource_exhausted : Status
  not_supported : Status
  not_implemented : Status
  hardware_fault : Status
  data_corruption : Status
  internal_error : Status
  value_out_of_range : Status
  invalid_state : Status
  not_connected : Status

abbrev pub is_ok : Status → Bool
is_ok ok = true
is_ok _ = false

abbrev pub is_timeout : Status → Bool
is_timeout timeout = true
is_timeout _ = false

-- An array argument with its element count: NULL with a count, or the elements that it points to.
pub data Array {ℓ} (A : Type ℓ) : Type ℓ where
  null : ℕ → Array A
  elements : List A → Array A

abbrev pub count {ℓ} : {A : Type ℓ} → Array A → ℕ
count (null n) = n
count (elements xs) = length xs
