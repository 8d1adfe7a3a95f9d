-- ===== src/AppManager/Commits/Runs.antt =====
-- The hook for the outcome of a checkpoint, over whole runs.
use platform_rte.Prelude.{
  ℕ, ◌∷◌, ◌≡◌, refl, ap, ◌∙◌, Option, none, some, true, arith, Option-cases, Bool-cases, inl, inr,
}
use platform_rte.Platform.Status.{Status, is_ok}
use platform_rte.Platform.Safestate.{logged, called}
use platform_rte.AppManager.{Stage, AppState, ran, reset_to}
use platform_rte.AppManager.Cycle.{
  Callback, Application, Operations, Config, Machine, run_stage, loop, after_callback, End, left,
  exhausted, halted,
}
use platform_rte.AppManager.Run.{
  run, run_with, run_complete, run_application, after_init, after_cycles, after_shutdown,
  failed_init, shut_down, start_running, note_failed_init, complete, is_active,
}
use platform_rte.AppManager.Commits.{commits, Keeps, loop-Keeps}

module _ {W : Type 0} (c : Config W) where
  module _ (app : Application W) where
    run_stage-Keeps :
        (stage : Stage) (f : Callback W) (s : Machine W)
        → ((r : Option Status) → commits (called (ran stage r) ∷ s.trace) ≡ commits s.trace)
        → Keeps s.trace
        → Keeps (run_stage stage f s).1.trace
    unfolding run_stage after_callback
    run_stage-Keeps stage f s same h = elim (Option-cases (f s.world)) [
      | inl e ↦ rw e (same none ∙ h)
      | inr ((status, world, calls), e) ↦ rw e (same (some status) ∙ h)
    ]

    after_shutdown-Keeps :
        (o : Option Status × Machine W) → Keeps o.1.trace → Keeps (after_shutdown c o).1.trace
    unfolding after_shutdown
    after_shutdown-Keeps (none, s) h = h
    after_shutdown-Keeps (some status, s) h = ground arith

    failed_init_trace : (o : Option Status × Machine W) → (failed_init o).1.trace ≡ o.1.trace
    failed_init_trace (none, s) = refl
    failed_init_trace (some status, s) = refl

    after_cycles-Keeps :
        (o : End × Machine W) → Keeps o.1.trace → Keeps (after_cycles c app o).1.trace
    unfolding after_cycles
    after_cycles-Keeps (left, s) h =
        let s' = record s { statics = shut_down s.statics } in
        after_shutdown-Keeps (run_stage Stage.shutdown app.shutdown s')
          (run_stage-Keeps Stage.shutdown app.shutdown s' (λ r. refl) h)
    after_cycles-Keeps (exhausted, s) h = h
    after_cycles-Keeps (halted, s) h = h

    after_init-Keeps :
        (fuel : ℕ) (o : Option Status × Machine W)
        → Keeps o.1.trace
        → Keeps (after_init c app fuel o).1.trace
    unfolding after_init
    after_init-Keeps fuel (none, s) h = h
    after_init-Keeps fuel (some status, s) h = elim (Bool-cases (is_ok status)) [
      | inl e ↦
          let s' = record s { statics = start_running s.statics } in
          rw e (after_cycles-Keeps (loop c app fuel s') (loop-Keeps c app fuel s' h))
      | inr e ↦
          let s' = record s {
            statics = note_failed_init s.statics status;
            trace = logged "Initialization failed" ∷ s.trace;
          } in
          let o = run_stage Stage.shutdown app.shutdown s' in
          rw e (
            ap commits (failed_init_trace o)
            ∙ run_stage-Keeps Stage.shutdown app.shutdown s' (λ r. refl) h)
    ]

    run_application-Keeps :
        (fuel : ℕ) (s : Machine W) → Keeps s.trace → Keeps (run_application c app fuel s).1.trace
    unfolding run_application
    run_application-Keeps fuel s h =
        let s' = record s {
          statics = reset_to AppState.initializing s.statics;
          trace = logged "starting" ∷ s.trace;
        } in
        after_init-Keeps fuel (run_stage Stage.init app.init s')
          (run_stage-Keeps Stage.init app.init s' (λ r. refl) h)

  run_with-Keeps :
      (ops : Option (Operations W)) (fuel : ℕ) (s : Machine W)
      → Keeps s.trace
      → Keeps (run_with c ops fuel s).1.trace
  unfolding run_with run_complete
  run_with-Keeps none fuel s h = h
  run_with-Keeps (some ops) fuel s h = elim (Option-cases (complete ops)) [
    | inl e ↦ rw e h
    | inr (app, e) ↦ elim (Bool-cases (is_active s.statics.app.state)) [
      | inl a ↦ rw (e, a) h
      | inr a ↦ rw (e, a) (run_application-Keeps app fuel s h)
    ]
  ]

-- Over any run, with any application, however far it comes: a checkpoint is made only after an execute that
-- succeeded in the same cycle; on_checkpoint_result is called only after such an execute, at most once,
-- and with what the checkpoint of that cycle gave: committed if it succeeded or there was none, and not
-- committed if it failed.
pub commits-run :
    {W : Type 0} (c : Option (Config W)) (fuel : ℕ) (s : Machine W)
    → commits s.trace ≡ true
    → commits (run c fuel s).1.trace ≡ true
unfolding run
commits-run none fuel s h = h
commits-run (some c) fuel s h = run_with-Keeps c c.ops fuel s h
