-- ===== src/Platform/Violation.antt =====
-- rte_safety_violation.c: the handler of the application for a violation that a check finds. The file,
-- line and message of a report are left out.
use platform_rte.Prelude.{ℕ, List, [], ◌∷◌, Option, none, some}
use platform_rte.Platform.Status.{Status, ok, invalid_param}

-- `rte_safety_violation_kind_t`
pub data ViolationKind : Type 0 where
  corruption : ViolationKind
  overflow : ViolationKind
  out_of_range : ViolationKind

-- A call of the handler, which is a number.
pub data Report : Type 0 where
  reported : ℕ → ViolationKind → Report

-- `rte_safety_violation_register_handler` on the static handler; `none` is NULL.
unfoldable pub register_violation_handler : Option ℕ → Option ℕ → Status × Option ℕ
register_violation_handler current none = (invalid_param, current)
register_violation_handler current (some h) = (ok, some h)

-- `rte_safety_violation_report`
unfoldable pub report : Option ℕ → ViolationKind → List Report
report none kind = []
report (some h) kind = reported h kind ∷ []
