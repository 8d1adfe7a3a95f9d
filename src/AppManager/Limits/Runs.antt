-- ===== src/AppManager/Limits/Runs.antt =====
-- How many errors and cycles a run of an application can have, how it leaves the manager, and when it ends.
use platform_rte.Prelude.{
  ℕ, ◌+◌, ◌^◌, ◌≤◌, ◌<◌, List, [], ◌∷◌, ◌≡◌, refl, sym, ap, subst, ◌∙◌, Option, none, some, false,
  ◌&&◌, ltb, if◌then◌else◌, arith, Option-cases, Bool-cases, inl, inr, u32, ◌⊎◌,
}
use platform_rte.Platform.Status.{Status, ok, is_ok}
use platform_rte.Platform.Safestate.{Event, Platform, logged, called, handled}
use platform_rte.Platform.Lifecycle.{unlock}
use platform_rte.AppManager.{AppStats, Statics, Stage, AppState, Step, ran, reset_to}
use platform_rte.AppManager.Cycle.{
  Callback, Application, Operations, Config, Machine, run_stage, loop, after_callback, End, left,
  exhausted, halted,
}
use platform_rte.AppManager.Run.{
  Ended, ExitCode, exit_success, exit_failure, returned, out_of_fuel, never_returns, run, run_with,
  run_complete, run_application, after_init, after_cycles, after_shutdown, failed_init, shut_down,
  start_running, note_failed_init, exit_code, complete, is_active,
}
use platform_rte.AppManager.Limits.{Frame, apply_calls-Frame, Stuck}
use platform_rte.AppManager.Limits.Loops.{Limited, LoopFate, loop-Fate}

-- The newest stage of a trace.
abbrev pub last_ran : List (Event Step) → Option Stage
last_ran [] = none
last_ran (called (ran stage r) ∷ t) = some stage
last_ran (logged l ∷ t) = last_ran t
last_ran (handled h l r ∷ t) = last_ran t

-- How a run that comes back leaves the manager, if init failed and if it did not.
abbrev pub InitFailed : ExitCode → Statics → Type 0
InitFailed code g =
    (code ≡ exit_failure)
    × (g.app.state ≡ AppState.error)
    × (g.app.iteration_count ≡ 0)
    × (g.app.error_count ≡ 1)

abbrev pub Completed : {W : Type 0} → Config W → ExitCode → Statics → Type 0
Completed c code g =
    (code
      ≡ (if ltb 0 c.error_threshold && ltb 0 g.app.error_count then exit_failure else exit_success))
    × (g.app.state ≡ AppState.shutdown)
    × (0 < c.max_iterations → g.app.iteration_count ≤ c.max_iterations)
    × (0 < c.error_threshold → g.app.error_count ≤ c.error_threshold + 2)

abbrev pub RunFate : {W : Type 0} → Config W → ℕ → Ended × Machine W → Type 0
RunFate c fuel (returned code, s) =
    (s.statics.platform.setup_locked ≡ false)
    × (s.statics.signature_active ≡ false)
    × (last_ran s.trace ≡ some Stage.shutdown)
    × (InitFailed code s.statics ⊎ Completed c code s.statics)
RunFate c fuel (out_of_fuel, s) = 0 < c.max_iterations → fuel < c.max_iterations
RunFate c fuel (never_returns, s) = Stuck s.trace

module _ {W : Type 0} where
  abbrev pub Staged : Stage → Machine W → Option Status × Machine W → Type 0
  Staged stage s (r, s') =
      Frame s.statics s'.statics × (last_ran s'.trace ≡ some stage) × (r ≡ none → Stuck s'.trace)

  pub run_stage-Staged :
      (stage : Stage) (f : Callback W) (s : Machine W) → Staged stage s (run_stage stage f s)
  unfolding run_stage after_callback
  run_stage-Staged stage f s = elim (Option-cases (f s.world)) [
    | inl e ↦ rw e ((refl, refl, refl, λ h. h), refl, λ q. (stage, s.trace, refl))
    | inr ((status, world, calls), e) ↦
        rw e (apply_calls-Frame s.statics calls, refl, λ q. ground arith)
  ]

module _ {W : Type 0} (c : Config W) (app : Application W) (few : c.max_iterations < 2 ^ 32)
    (low : c.error_threshold + 2 < 2 ^ 32) where
  after_shutdown-Fate :
      (fuel : ℕ) (g : Statics) (s : Machine W) (o : Option Status × Machine W)
      → s.statics ≡ shut_down g
      → Limited c g
      → Staged Stage.shutdown s o
      → RunFate c fuel (after_shutdown c o)
  unfolding after_shutdown shut_down exit_code unlock
  after_shutdown-Fate fuel g s (none, s') e l (f, r, st) = st refl
  after_shutdown-Fate fuel g s (some status, s') e (i, b) ((a, p, q, k), r, st) =
      let app' : s'.statics.app ≡ (shut_down g).app = a ∙ ap (λ (x : Statics). x.app) e in
      (
        ap (λ (x : Platform). x.setup_locked) (p ∙ ap (λ (x : Statics). x.platform) e),
        q ∙ ap (λ (x : Statics). x.signature_active) e,
        ground arith,
        inr (
          ground arith,
          refl,
          λ m. subst (λ (x : AppStats). x.iteration_count ≤ c.max_iterations) (sym app') (i m),
          λ m.
              let (x, y) = b m in
              subst (λ (x : AppStats). x.error_count ≤ c.error_threshold + 2) (sym app') x,
        ),
      )

  after_cycles-Fate :
      (fuel : ℕ) (g : Statics) (o : End × Machine W)
      → g.app.iteration_count ≡ 0
      → LoopFate c fuel g o
      → RunFate c fuel (after_cycles c app o)
  unfolding after_cycles
  after_cycles-Fate fuel g (left, s) z l =
      let s' = record s { statics = shut_down s.statics } in
      after_shutdown-Fate fuel s.statics s' (run_stage Stage.shutdown app.shutdown s') refl l
        (run_stage-Staged Stage.shutdown app.shutdown s')
  after_cycles-Fate fuel g (exhausted, s) z f = λ m. omega (arith, f m, z)
  after_cycles-Fate fuel g (halted, s) z f = f

  started-Fate :
      (fuel : ℕ) (s : Machine W)
      → s.statics.app.iteration_count ≡ 0
      → s.statics.app.error_count ≡ 0
      → RunFate c fuel
          (after_cycles c app (loop c app fuel (record s { statics = start_running s.statics })))
  unfolding start_running
  started-Fate fuel s i e =
      let s' = record s { statics = start_running s.statics } in
      after_cycles-Fate fuel s'.statics (loop c app fuel s') i (
        loop-Fate c app few low fuel s'
          (λ m. omega (arith, i), λ m. (omega (arith, e), λ p q. absurd (omega (arith, e, p, q)))))

  failed_init-Fate :
      (fuel : ℕ) (g : Statics) (status : Status) (s : Machine W) (o : Option Status × Machine W)
      → s.statics ≡ note_failed_init g status
      → g.app.iteration_count ≡ 0
      → g.app.error_count ≡ 0
      → g.platform.setup_locked ≡ false
      → g.signature_active ≡ false
      → Staged Stage.shutdown s o
      → RunFate c fuel (failed_init o)
  unfolding note_failed_init
  failed_init-Fate fuel g status s (none, s') e i z u v (f, r, st) = st refl
  failed_init-Fate fuel g status s (some status', s') e i z u v ((a, p, q, k), r, st) =
      let app' : s'.statics.app ≡ (note_failed_init g status).app =
        a ∙ ap (λ (x : Statics). x.app) e in
      (
        ap (λ (x : Platform). x.setup_locked) (p ∙ ap (λ (x : Statics). x.platform) e) ∙ u,
        q ∙ ap (λ (x : Statics). x.signature_active) e ∙ v,
        r,
        inl (
          refl,
          ap (λ (x : AppStats). x.state) app',
          ap (λ (x : AppStats). x.iteration_count) app' ∙ i,
          ap (λ (x : AppStats). x.error_count) app' ∙ ap (λ (n : ℕ). u32 (n + 1)) z,
        ),
      )

  after_init-Fate :
      (fuel : ℕ) (s : Machine W) (o : Option Status × Machine W)
      → s.statics.app ≡ (record {
        state = AppState.initializing;
        iteration_count = 0;
        error_count = 0;
        last_error = ok;
      })
      → s.statics.platform.setup_locked ≡ false
      → s.statics.signature_active ≡ false
      → Staged Stage.init s o
      → RunFate c fuel (after_init c app fuel o)
  unfolding after_init
  after_init-Fate fuel s (none, s') e u v (f, r, st) = st refl
  after_init-Fate fuel s (some status, s') e u v ((a, p, q, k), r, st) =
      elim (Bool-cases (is_ok status)) [
        | inl h ↦ rw h (
            started-Fate fuel s' (ap (λ (x : AppStats). x.iteration_count) (a ∙ e))
              (ap (λ (x : AppStats). x.error_count) (a ∙ e)))
        | inr h ↦
            let noted = record s' {
              statics = note_failed_init s'.statics status;
              trace = logged "Initialization failed" ∷ s'.trace;
            } in
            rw h (
              failed_init-Fate fuel s'.statics status noted
                (run_stage Stage.shutdown app.shutdown noted) refl
                (ap (λ (x : AppStats). x.iteration_count) (a ∙ e))
                (ap (λ (x : AppStats). x.error_count) (a ∙ e))
                (ap (λ (x : Platform). x.setup_locked) p ∙ u) (q ∙ v)
                (run_stage-Staged Stage.shutdown app.shutdown noted))
      ]

  run_application-Fate : (fuel : ℕ) (s : Machine W) → RunFate c fuel (run_application c app fuel s)
  unfolding run_application reset_to unlock
  run_application-Fate fuel s =
      let s' = record s {
        statics = reset_to AppState.initializing s.statics;
        trace = logged "starting" ∷ s.trace;
      } in
      after_init-Fate fuel s' (run_stage Stage.init app.init s') refl refl refl
        (run_stage-Staged Stage.init app.init s')

-- A run of an application with all mandatory operations, while no run is active, with an error threshold
-- below 2 ^ 32 - 2. If it comes back: the setup phase is unlocked, no cycle is active, shutdown was the last stage, and either init failed, with
-- EXIT_FAILURE, state ERROR and one error; or the state is SHUTDOWN after at most max_iterations cycles
-- (if that is not 0), with at most two errors above the threshold (if that is not 0), and EXIT_FAILURE
-- exactly if there was an error and a threshold. It can stay away only in a callback that does not
-- return, and fuel for max_iterations cycles is enough.
pub run-Fate :
    {W : Type 0} (c : Config W) (ops : Operations W) (app : Application W) (fuel : ℕ)
    (s : Machine W)
    → c.ops ≡ some ops
    → complete ops ≡ some app
    → is_active s.statics.app.state ≡ false
    → c.max_iterations < 2 ^ 32
    → c.error_threshold + 2 < 2 ^ 32
    → RunFate c fuel (run (some c) fuel s)
unfolding run run_with run_complete
run-Fate c ops app fuel s e e' h few low = rw (e, e', h) (run_application-Fate c app few low fuel s)
