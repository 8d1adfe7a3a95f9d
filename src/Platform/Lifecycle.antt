-- ===== src/Platform/Lifecycle.antt =====
-- rte_lifecycle.c: the process-wide lock of the setup phase; and the registration of safe-state
-- handlers, which it guards.
use platform_rte.Prelude.{ℕ, List, [], Option, none, some, Bool, true, false, if◌then◌else◌}
use platform_rte.Platform.Status.{Status, ok, invalid_param, invalid_state}
use platform_rte.Platform.Safestate.{
  Level, degraded, safe, reboot, other, Event, Platform, enter, reason_setup_after_init,
}

unfoldable pub lock : Platform → Platform
lock p = record p { setup_locked = true }

unfoldable pub unlock : Platform → Platform
unlock p = record p { setup_locked = false }

-- `rte_lifecycle_check_setup_allowed`. The DEGRADED entry returns, so the status always comes back.
unfoldable pub check_setup_allowed : {E : Type 0} → Platform → Status × List (Event E)
unfolding enter
check_setup_allowed p =
    if p.setup_locked
    then (invalid_state, (enter p degraded reason_setup_after_init).1)
    else (ok, [])

store_handler : Platform → Level → ℕ → Platform
store_handler p degraded h = record p { degraded_handler = some h }
store_handler p safe h = record p { safe_handler = some h }
store_handler p reboot h = record p { reboot_handler = some h }
store_handler p (other n) h = p

is_known : Level → Bool
is_known (other n) = false
is_known _ = true

-- `rte_safestate_register_handler`; `none` is a NULL handler.
unfoldable pub register_handler :
    {E : Type 0} → Platform → Level → Option ℕ → Status × Platform × List (Event E)
unfolding check_setup_allowed store_handler is_known
register_handler p level none = (invalid_param, p, [])
register_handler p level (some h) =
    let (allowed, trace) = check_setup_allowed p in
    if is_known level
    then (if p.setup_locked then (allowed, p, trace) else (ok, store_handler p level h, trace))
    else (invalid_param, p, [])
