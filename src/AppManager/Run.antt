-- ===== src/AppManager/Run.antt =====
-- rte_appmanager_run: the life cycle of one application.
use platform_rte.Prelude.{
  ℕ, ◌+◌, List, [], ◌∷◌, ◌++◌, Option, none, some, Bool, true, false, ◌&&◌, ltb, if◌then◌else◌, u32,
}
use platform_rte.Platform.Status.{Status, is_ok}
use platform_rte.Platform.Safestate.{Event, logged}
use platform_rte.Platform.Lifecycle.{lock, unlock}
use platform_rte.AppManager.{AppState, Statics, Stage, Step, reset_to}
use platform_rte.AppManager.Cycle.{
  Callback, Operations, Application, Config, Machine, run_stage, loop, End, left, exhausted, halted,
}

pub data ExitCode : Type 0 where
  exit_success : ExitCode
  exit_failure : ExitCode

-- The result of a run.
pub data Ended : Type 0 where
  returned : ExitCode → Ended
  out_of_fuel : Ended
  never_returns : Ended

abbrev pub set_state : AppState → Statics → Statics
set_state state g = let a = g.app in record g { app = record a { state = state } }

unfoldable pub start_running : Statics → Statics
unfolding lock
start_running g = let g' = set_state AppState.running g in record g' { platform = lock g.platform }

unfoldable pub note_failed_init : Statics → Status → Statics
note_failed_init g status =
    let a = g.app in
    record g {
      app = record a {
        state = AppState.error;
        error_count = u32 (a.error_count + 1);
        last_error = status;
      };
    }

unfoldable pub shut_down : Statics → Statics
unfolding unlock
shut_down g =
    let g' = set_state AppState.shutting_down g in
    record g' { signature_active = false; platform = unlock g.platform }

abbrev pub is_active : AppState → Bool
is_active AppState.initializing = true
is_active AppState.running = true
is_active AppState.shutting_down = true
is_active _ = false

module _ {W : Type 0} where
  unfoldable pub exit_code : Config W → Statics → ExitCode
  exit_code c g =
      if ltb 0 g.app.error_count && ltb 0 c.error_threshold then exit_failure else exit_success

  abbrev pub put_lines : List (Event Step) → Machine W → Machine W
  put_lines lines s = record s { trace = lines ++ s.trace }

  unfoldable pub after_shutdown : Config W → Option Status × Machine W → Ended × Machine W
  unfolding exit_code
  after_shutdown c (none, s) = (never_returns, s)
  after_shutdown c (some status, s) =
      let lines =
        if is_ok status
        then logged "SUMMARY" ∷ []
        else logged "SUMMARY" ∷ logged "Shutdown returned non-OK status" ∷ [] in
      (
        returned (exit_code c s.statics),
        record s { statics = set_state AppState.shutdown s.statics; trace = lines ++ s.trace },
      )

  unfoldable pub after_cycles : Config W → Application W → End × Machine W → Ended × Machine W
  unfolding run_stage after_shutdown shut_down
  after_cycles c app (left, s) =
      after_shutdown c
        (run_stage Stage.shutdown app.shutdown (record s { statics = shut_down s.statics }))
  after_cycles c app (exhausted, s) = (out_of_fuel, s)
  after_cycles c app (halted, s) = (never_returns, s)

  abbrev pub failed_init : Option Status × Machine W → Ended × Machine W
  failed_init (none, s) = (never_returns, s)
  failed_init (some status, s) = (returned exit_failure, s)

  unfoldable pub after_init :
      Config W → Application W → ℕ → Option Status × Machine W → Ended × Machine W
  unfolding run_stage after_cycles loop start_running note_failed_init
  after_init c app fuel (none, s) = (never_returns, s)
  after_init c app fuel (some status, s) =
      let noted =
        put_lines (logged "Initialization failed" ∷ [])
          (record s { statics = note_failed_init s.statics status }) in
      if is_ok status
      then after_cycles c app (loop c app fuel (record s { statics = start_running s.statics }))
      else failed_init (run_stage Stage.shutdown app.shutdown noted)

  -- A run from the startup banner on.
  unfoldable pub run_application : Config W → Application W → ℕ → Machine W → Ended × Machine W
  unfolding reset_to run_stage after_init
  run_application c app fuel s = after_init c app fuel (
      run_stage Stage.init app.init (
        put_lines (logged "starting" ∷ [])
          (record s { statics = reset_to AppState.initializing s.statics })))

  -- The test for the mandatory operations.
  abbrev complete_with :
      Operations W
      → Option (Callback W)
      → Option (Callback W)
      → Option (Callback W)
      → Bool
      → Option (Application W)
  complete_with ops (some i) (some e) (some d) true = some (record {
    init = i;
    pre_execute = ops.pre_execute;
    execute = e;
    post_execute = ops.post_execute;
    on_checkpoint_result = ops.on_checkpoint_result;
    shutdown = d;
  })
  complete_with ops _ _ _ _ = none

  abbrev pub complete : Operations W → Option (Application W)
  complete ops =
      complete_with ops ops.init ops.execute ops.shutdown (ops.gives_name && ops.gives_version)

  abbrev pub refuse : List (Event Step) → Machine W → Ended × Machine W
  refuse lines s = (returned exit_failure, put_lines lines s)

  unfoldable pub run_complete :
      Config W → Option (Application W) → ℕ → Machine W → Ended × Machine W
  unfolding run_application
  run_complete c none fuel s = refuse (logged "Incomplete rte_appmanager_operations_t" ∷ []) s
  run_complete c (some app) fuel s =
      if is_active s.statics.app.state
      then refuse (logged "called while an application is already running" ∷ []) s
      else run_application c app fuel s

  unfoldable pub run_with : Config W → Option (Operations W) → ℕ → Machine W → Ended × Machine W
  unfolding run_complete
  run_with c none fuel s = refuse (logged "Invalid rte_appmanager_config_t" ∷ []) s
  run_with c (some ops) fuel s = run_complete c (complete ops) fuel s

  -- `rte_appmanager_run` with fuel for so many cycles; `none` is NULL.
  unfoldable pub run : Option (Config W) → ℕ → Machine W → Ended × Machine W
  unfolding run_with
  run none fuel s = refuse (logged "Invalid rte_appmanager_config_t" ∷ []) s
  run (some c) fuel s = run_with c c.ops fuel s
