-- ===== src/Platform.antt =====
-- What every component shares: the status codes, the safe-state facility and the setup-phase lock
-- (include/rte/utils/status, src/utils/safestate, src/utils/lifecycle).
pub mod Status
pub mod Violation
pub mod Safestate
pub mod Lifecycle
