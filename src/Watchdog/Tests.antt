-- ===== src/Watchdog/Tests.antt =====
-- Runs of the watchdog, and the theorems about it at concrete pools.
use platform_rte.Prelude.{ℕ, ◌≡◌, ◌⊎◌, refl, [], ◌∷◌, some, none, true, false, arith, get_elem?}
use platform_rte.Platform.Status.{not_initialized}
use platform_rte.Platform.Safestate.{Platform, logged, enter, safe, reason_clock_failed}
use platform_rte.Watchdog.{
  Action, Slot, WatchdogConfig, Manager, zero_config, zero_slot, now, failed, is_supervising,
}
use platform_rte.Watchdog.Ticks.{timer_tick, check_slots, check_slot, is_due, timeout_handler}
use platform_rte.Watchdog.Supervision.{
  Supervising, AllChecked, SomeHalts, AnySupervising, timer_tick_fires, timer_tick_clock_failed,
}
use platform_rte.Watchdog.Kicks.{run, kick_at, tick_at, kicked-InTime}

abbrev platform : Platform
platform = record {
  setup_locked = false;
  degraded_handler = none;
  safe_handler = some 7;
  reboot_handler = none;
}

abbrev log_config : WatchdogConfig
log_config = record zero_config { timeout_ms = 50 }

abbrev stop_config : WatchdogConfig
stop_config = record zero_config { timeout_ms = 50; action = Action.safestate }

-- A slot that runs with a deadline.
abbrev running : WatchdogConfig → ℕ → Slot
running c d = record zero_slot { in_use = true; active = true; config = c; deadline_ms = d }

-- One watchdog that logs, one that stops the machine, and a free slot.
abbrev pair : Manager
pair = record {
  pool = running log_config 100 ∷ running stop_config 200 ∷ zero_slot ∷ [];
  initialized = true;
}

tick_fires_one : (timer_tick platform pair (now 150)).0 ≡ true
unfolding timer_tick check_slots check_slot is_due is_supervising timeout_handler
tick_fires_one = refl

tick_stops : (timer_tick platform pair (now 200)).0 ≡ false
unfolding timer_tick check_slots check_slot is_due is_supervising timeout_handler
tick_stops = refl

timer_tick_fires_example :
    let (returns, m', trace) = timer_tick platform pair (now 150) in
    (m'.initialized ≡ true)
    × ((returns ≡ true) × AllChecked 150 pair.pool m'.pool × (¬ (SomeHalts 150 pair.pool))
        ⊎ ((returns ≡ false) × SomeHalts 150 pair.pool))
timer_tick_fires_example = timer_tick_fires platform pair 150 refl

timer_tick_clock_failed_example :
    ((timer_tick platform pair (failed not_initialized) ≡ (true, pair, []))
      × (¬ (AnySupervising pair.pool)))
    ⊎ ((timer_tick platform pair (failed not_initialized) ≡ (
      false,
      pair,
      logged "watchdog clock failed - entering SAFE state"
          ∷ (enter platform safe reason_clock_failed).1,
    ))
        × AnySupervising pair.pool)
timer_tick_clock_failed_example = timer_tick_clock_failed platform pair not_initialized refl

kicked-InTime_example :
    (s' : Slot) × (get_elem?
        (run platform 1 pair
          (tick_at 150 ∷ kick_at 190 ∷ tick_at 239 ∷ kick_at 239 ∷ tick_at 280 ∷ [])).pool
        1
      ≡ some s')
    × Supervising s'
    × (s'.fires ≡ 0)
    × (s'.config ≡ stop_config)
kicked-InTime_example =
    kicked-InTime platform pair 1 (running stop_config 200)
      (tick_at 150 ∷ kick_at 190 ∷ tick_at 239 ∷ kick_at 239 ∷ tick_at 280 ∷ []) refl
      (refl, refl, refl)
      (omega arith, (omega arith, (omega arith, (omega arith, (omega arith, tt)))))
