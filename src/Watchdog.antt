-- ===== src/Watchdog.antt =====
-- rte_watchdog.c: a pool of eight watchdogs, driven by a periodic tick. Each operation reads the
-- clock once at most, so the reading is an argument. The custom actions are application code: a call
-- is an event, and is taken not to call back into this module.
pub mod Ticks
pub mod Supervision
pub mod Kicks
pub mod Pool
mod Tests
use Prim.Native.String.{String}
use platform_rte.Prelude.{
  ℕ, zero, suc, ◌+◌, ◌-◌, List, [], ◌∷◌, ◌++◌, Option, none, some, Bool, true, false, not, ◌&&◌,
  ◌||◌, ltb, leb, ◌==◌, get_elem?, set, map, replicate, if◌then◌else◌, u32, u64,
}
use platform_rte.Platform.Status.{
  Status, ok, invalid_param, not_initialized, resource_exhausted, internal_error, is_ok,
}
use platform_rte.Platform.Safestate.{
  Level, safe, reboot, Event, logged, called, Platform, Outcome, enter, reason_unspecified,
  reason_clock_failed,
}
use platform_rte.Platform.Lifecycle.{check_setup_allowed}

-- `rte_watchdog_type_t`
pub data WatchdogType : Type 0 where
  system : WatchdogType
  task : WatchdogType
  channel : WatchdogType
  checkpoint : WatchdogType

-- `rte_watchdog_action_t`; `other` is a value that the enumeration does not name.
pub data Action : Type 0 where
  log : Action
  safestate : Action
  restart : Action
  failover : Action
  custom : Action
  other : ℕ → Action

-- `rte_watchdog_config_t`. `custom_action` is the context of the callback, if there is one.
pub record WatchdogConfig : Type 0 where
  pub kind : WatchdogType
  pub name : Option String
  pub timeout_ms : ℕ
  pub action : Action
  pub custom_action : Option ℕ

-- A pool slot; the uint8_t flags are 0 or 1.
pub record Slot : Type 0 where
  pub in_use : Bool
  pub active : Bool
  pub fired : Bool
  pub config : WatchdogConfig
  pub deadline_ms : ℕ
  pub last_kick_ms : ℕ
  pub kicks : ℕ
  pub fires : ℕ
  pub recoveries : ℕ

-- The statics of the module.
pub record Manager : Type 0 where
  pub pool : List Slot
  pub initialized : Bool

-- What `rte_timer_now` returns.
pub data Reading : Type 0 where
  now : ℕ → Reading
  failed : Status → Reading

-- RTE_WATCHDOG_MAX_COUNT
abbrev pub max_count : ℕ
max_count = 8

abbrev pub zero_config : WatchdogConfig
zero_config = record {
  kind = system;
  name = none;
  timeout_ms = 0;
  action = log;
  custom_action = none;
}

-- A slot after `memset`, which the pool is made of too.
abbrev pub zero_slot : Slot
zero_slot = record {
  in_use = false;
  active = false;
  fired = false;
  config = zero_config;
  deadline_ms = 0;
  last_kick_ms = 0;
  kicks = 0;
  fires = 0;
  recoveries = 0;
}

-- `is_valid_handle`: the slot that a handle points at, if it is one of the pool and in use. A handle
-- is an index into the pool, or `none` for NULL; one past the pool is any other pointer.
unfoldable pub slot_of : Manager → Option ℕ → Option Slot
slot_of m none = none
slot_of m (some i) = elim (get_elem? m.pool i) [
  | none ↦ none
  | some s ↦ if s.in_use then some s else none
]

-- `is_valid_action`
unfoldable pub is_valid_action : Action → Bool
is_valid_action (other n) = false
is_valid_action _ = true

-- `is_supervising`
unfoldable pub is_supervising : Slot → Bool
is_supervising s = s.in_use && (s.active && not s.fired)

-- `first_supervising_index`: the slot at that index.
unfoldable pub first_supervising : List Slot → Option Slot
first_supervising [] = none
first_supervising (s ∷ ss) = if is_supervising s then some s else first_supervising ss

abbrev Done : Type 0 → Type 0
Done R = R × Manager × List (Event ℕ)

-- `rte_watchdog_manager_initialize` and `_shutdown`
unfoldable pub manager_initialize : Manager → Done Status
manager_initialize m = if m.initialized then (ok, m, []) else (
  ok,
  record { pool = replicate max_count zero_slot; initialized = true },
  logged "manager initialized" ∷ [],
)

unfoldable pub manager_shutdown : Manager → Done Status
manager_shutdown m = (
  ok,
  record { pool = map (λ (s : Slot). record s { active = false }) m.pool; initialized = false },
  logged "manager shut down" ∷ [],
)

unfoldable pub needs_handler : Action → Bool
needs_handler custom = true
needs_handler failover = true
needs_handler _ = false

unfoldable pub is_none : {A : Type 0} → Option A → Bool
is_none none = true
is_none (some a) = false

-- The search of `rte_watchdog_create` for a free slot from index `i`: its index and the new pool.
unfoldable pub claim : WatchdogConfig → ℕ → List Slot → Option (ℕ × List Slot)
claim config i [] = none
claim config i (s ∷ ss) = elim s.in_use [
  | false ↦ some (i, record zero_slot { in_use = true; config = config } ∷ ss)
  | true ↦ elim (claim config (suc i) ss) [ none ↦ none | some (j, ss') ↦ some (j, s ∷ ss') ]
]

-- `rte_watchdog_create` with a configuration and a place for the handle that are not NULL.
unfoldable pub create : Platform → Manager → WatchdogConfig → Done (Status × Option ℕ)
unfolding is_valid_action needs_handler is_none check_setup_allowed
create p m config =
    let (allowed, trace) = check_setup_allowed p in
    if config.timeout_ms == 0 || not (is_valid_action config.action)
    then ((invalid_param, none), m, [])
    else if needs_handler config.action && is_none config.custom_action
    then ((invalid_param, none), m, [])
    else if not m.initialized
    then ((not_initialized, none), m, [])
    else if not (is_ok allowed)
    then ((allowed, none), m, trace)
    else elim (claim config 0 m.pool) [
      | none ↦ ((resource_exhausted, none), m, trace)
      | some (i, pool) ↦
          ((ok, some i), record m { pool = pool }, trace ++ logged "watchdog created" ∷ [])
    ]

abbrev pub put : Manager → Option ℕ → Slot → Manager
put m none s = m
put m (some i) s = record m { pool = set m.pool i s }

-- The slot after a start, and after a kick, at a time.
unfoldable pub started : Slot → ℕ → Slot
started s t = record s {
  active = true;
  fired = false;
  deadline_ms = u64 (t + s.config.timeout_ms);
  last_kick_ms = t;
}

unfoldable pub kicked : Slot → ℕ → Slot
kicked s t = record s {
  deadline_ms = u64 (t + s.config.timeout_ms);
  last_kick_ms = t;
  kicks = u32 (s.kicks + 1);
}

unfoldable pub start : Manager → Option ℕ → Reading → Status × Manager
unfolding slot_of started
start m handle reading = elim (slot_of m handle) [
  | none ↦ (invalid_param, m)
  | some s ↦ elim reading [ now t ↦ (ok, put m handle (started s t)) | failed e ↦ (e, m) ]
]

unfoldable pub stop : Manager → Option ℕ → Status × Manager
unfolding slot_of
stop m handle = elim (slot_of m handle) [
  | none ↦ (invalid_param, m)
  | some s ↦ (ok, put m handle (record s { active = false }))
]

unfoldable pub kick : Manager → Option ℕ → Reading → Status × Manager
unfolding slot_of kicked
kick m handle reading = elim (slot_of m handle) [
  | none ↦ (invalid_param, m)
  | some s ↦
      let done : Status × Manager = elim reading [
        | now t ↦ (ok, put m handle (kicked s t))
        | failed e ↦ (e, m)
      ] in
      if not s.active || s.fired then (internal_error, m) else done
]

unfoldable pub destroy : Manager → Option ℕ → Status × Manager
unfolding slot_of
destroy m handle = elim (slot_of m handle) [
  | none ↦ (invalid_param, m)
  | some s ↦ (ok, put m handle (record s { active = false; in_use = false }))
]
