-- ===== src/Watchdog/Ticks.antt =====
-- The timeout handler, the tick and the status read-out of rte_watchdog.c.
use platform_rte.Prelude.{
  ℕ, ◌+◌, ◌-◌, List, [], ◌∷◌, ◌++◌, Option, none, some, Bool, true, false, ◌&&◌, ltb, leb,
  if◌then◌else◌, u32,
}
use platform_rte.Platform.Status.{Status, ok, invalid_param}
use platform_rte.Platform.Safestate.{
  safe, reboot, Event, logged, called, Platform, enter, reason_unspecified, reason_clock_failed,
}
use platform_rte.Watchdog.{
  Action, Slot, Manager, Reading, now, failed, slot_of, is_supervising, first_supervising,
}

-- A slot, whether control comes back, and what happens outwards.
abbrev pub Fired : Type 0
Fired = Slot × Bool × List (Event ℕ)

abbrev call_custom : Option ℕ → List (Event ℕ)
call_custom none = []
call_custom (some context) = called context ∷ []

-- The `switch` of `rte_watchdog_timeout_handler`, on a slot that is marked as fired.
dispatch : Platform → Slot → Action → Fired
unfolding enter
dispatch p s Action.log = (s, true, logged "watchdog timeout" ∷ [])
dispatch p s Action.safestate =
    let (returns, entry) = enter p safe reason_unspecified in
    (
      record s { recoveries = u32 (s.recoveries + 1) },
      returns,
      logged "watchdog timeout - entering SAFE state" ∷ entry,
    )
dispatch p s Action.restart =
    let (returns, entry) = enter p reboot reason_unspecified in
    (
      record s { recoveries = u32 (s.recoveries + 1) },
      returns,
      logged "watchdog timeout - requesting reboot" ∷ entry,
    )
dispatch p s Action.failover = (
  record s { recoveries = u32 (s.recoveries + 1) },
  true,
  logged "watchdog timeout - failover requested" ∷ call_custom s.config.custom_action,
)
dispatch p s Action.custom =
    (record s { recoveries = u32 (s.recoveries + 1) }, true, call_custom s.config.custom_action)
dispatch p s (Action.other n) = (s, true, logged "watchdog timeout - unrecognized action" ∷ [])

-- `rte_watchdog_timeout_handler` on the slot with a valid index.
unfoldable pub timeout_handler : Platform → Slot → Fired
unfolding dispatch
timeout_handler p s =
    if is_supervising s
    then dispatch p (record s { fired = true; fires = u32 (s.fires + 1) }) s.config.action
    else (s, true, [])

-- The test of the tick's loop.
unfoldable pub is_due : ℕ → Slot → Bool
is_due t s = is_supervising s && leb s.deadline_ms t

-- One round of the loop of `rte_watchdog_timer_tick`.
unfoldable pub check_slot : Platform → ℕ → Slot → Fired
check_slot p t s = if is_due t s then timeout_handler p s else (s, true, [])

-- The loop over the slots: it goes on only while control comes back.
unfoldable pub check_slots : Platform → ℕ → List Slot → List Slot × Bool × List (Event ℕ)
check_slots p t [] = ([], true, [])
check_slots p t (s ∷ ss) =
    let (ss', returns', trace') = check_slots p t ss in
    let (s', returns, trace) = check_slot p t s in
    if returns then (s' ∷ ss', returns', trace ++ trace') else (s' ∷ ss, false, trace)

-- What a call that returns nothing leaves: whether it returns, the state and the trace.
abbrev pub Ticked : Type 0
Ticked = Bool × Manager × List (Event ℕ)

-- The tick on a failed clock: a safe state, if any watchdog is supervising.
unfoldable pub clock_failed : Platform → Manager → Ticked
unfolding enter
clock_failed p m = elim (first_supervising m.pool) [
  | none ↦ (true, m, [])
  | some s ↦
      let (returns, entry) = enter p safe reason_clock_failed in
      (returns, m, logged "watchdog clock failed - entering SAFE state" ∷ entry)
]

clock_read : Platform → Manager → Reading → Ticked
unfolding clock_failed
clock_read p m (failed e) = clock_failed p m
clock_read p m (now t) =
    let (pool, returns, trace) = check_slots p t m.pool in
    (returns, record m { pool = pool }, trace)

-- `rte_watchdog_timer_tick`
unfoldable pub timer_tick : Platform → Manager → Reading → Ticked
unfolding clock_read
timer_tick p m reading = if m.initialized then clock_read p m reading else (true, m, [])

-- `rte_watchdog_status_t`
pub record WatchdogStatus : Type 0 where
  pub active : Bool
  pub kicks : ℕ
  pub fires : ℕ
  pub recoveries : ℕ
  pub time_since_last_kick : ℕ
  pub time_until_fire : ℕ

-- The read-out of a slot at a time; the differences are cut to uint32_t, and are 0 where they would
-- be negative.
read_out : Slot → ℕ → WatchdogStatus
read_out s t = record {
  active = s.active;
  kicks = s.kicks;
  fires = s.fires;
  recoveries = s.recoveries;
  time_since_last_kick = u32 (if leb s.last_kick_ms t then t - s.last_kick_ms else 0);
  time_until_fire = u32 (if ltb t s.deadline_ms then s.deadline_ms - t else 0);
}

-- `rte_watchdog_get_status`, with a place for the status that is not NULL.
unfoldable pub get_status : Manager → Option ℕ → Reading → Status × Option WatchdogStatus
unfolding slot_of read_out
get_status m handle reading = elim (slot_of m handle) [
  | none ↦ (invalid_param, none)
  | some s ↦ elim reading [ now t ↦ (ok, some (read_out s t)) | failed e ↦ (e, none) ]
]
