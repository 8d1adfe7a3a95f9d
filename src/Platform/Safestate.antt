-- ===== src/Platform/Safestate.antt =====
-- rte_safestate.c: the transition to DEGRADED, SAFE or REBOOT, with the state of the platform that
-- it reads. The texts for the log (file, line and message) are left out.
use Prim.Native.String.{String}
use platform_rte.Prelude.{ℕ, List, [], ◌∷◌, Option, none, some, Bool, true, false}

-- `rte_safestate_level_t`; `other` is a value that the enumeration does not name.
pub data Level : Type 0 where
  degraded : Level
  safe : Level
  reboot : Level
  other : ℕ → Level

-- The framework's `RTE_SAFESTATE_REASON_*` codes.
abbrev pub reason_unspecified : ℕ
reason_unspecified = 0

abbrev pub reason_checkpoint_timeout : ℕ
reason_checkpoint_timeout = 2

abbrev pub reason_setup_after_init : ℕ
reason_setup_after_init = 3

abbrev pub reason_clock_failed : ℕ
reason_clock_failed = 5

-- What the platform does outwards, in order: a log line, a safe-state handler with the level and
-- the reason that it is given, or an application callback with what it is given.
pub data Event (E : Type 0) : Type 0 where
  logged : String → Event E
  handled : ℕ → Level → ℕ → Event E
  called : E → Event E

-- What a function that may enter a safe state does. `result` is `none` if control never returns.
pub record Outcome (E S R : Type 0) : Type 0 where
  pub state : S
  pub result : Option R
  pub trace : List (Event E)

-- The process-wide statics: `g_setup_locked`, and `s_handlers` with a number for each handler.
pub record Platform : Type 0 where
  pub setup_locked : Bool
  pub degraded_handler : Option ℕ
  pub safe_handler : Option ℕ
  pub reboot_handler : Option ℕ

-- The slot that `rte_safestate_level_to_index` selects; `none` for an unknown level.
unfoldable pub handler_of : Platform → Level → Option ℕ
handler_of p degraded = p.degraded_handler
handler_of p safe = p.safe_handler
handler_of p reboot = p.reboot_handler
handler_of p (other n) = none

-- Only DEGRADED lets `rte_safestate_enter` return; an unknown level does not.
unfoldable pub enter_returns : Level → Bool
enter_returns degraded = true
enter_returns safe = false
enter_returns reboot = false
enter_returns (other n) = false

call_handler : {E : Type 0} → Option ℕ → Level → ℕ → List (Event E)
call_handler none level reason = []
call_handler (some h) level reason = handled h level reason ∷ []

-- `rte_safestate_enter`: whether it returns, and the handler that it calls first.
unfoldable pub enter : {E : Type 0} → Platform → Level → ℕ → Bool × List (Event E)
unfolding handler_of enter_returns call_handler
enter p level reason = (enter_returns level, call_handler (handler_of p level) level reason)

-- What a caller goes on with after `rte_safestate_enter`: `status` if that returns.
abbrev pub after_enter : {R : Type 0} → Bool → R → Option R
after_enter true status = some status
after_enter false status = none
