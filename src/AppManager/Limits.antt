-- ===== src/AppManager/Limits.antt =====
-- The counters of rte_appmanager_run, over a stage. Cycles, Loops and Runs have
-- what it is made of; Failing the runs that always fail.
pub mod Cycles
pub mod Loops
pub mod Runs
pub mod Failing
use platform_rte.Prelude.{
  ℕ, zero, suc, ◌+◌, ◌-◌, ◌^◌, ◌≤◌, ◌<◌, List, [], ◌∷◌, ◌++◌, ◌≡◌, refl, sym, ap, ◌∙◌, Option, none,
  some, Bool, true, false, ◌&&◌, ◌||◌, not, ltb, leb, ◌==◌, if◌then◌else◌, arith, Option-cases,
  Bool-cases, inl, inr, u32, ◌⊎◌,
}
use platform_rte.Platform.Status.{Status, is_ok}
use platform_rte.Platform.Safestate.{Event, logged, called, handled}
use platform_rte.AppManager.{
  Statics, Stage, AppState, Step, ran, reset_to, handle_stage_result, pre_execute, execute,
  post_execute, checkpoint, on_checkpoint_result, AppCall, apply_call, apply_calls, fold_signature,
  fold_mark, checkpoint_mark, request_shutdown, exceeded,
}
use platform_rte.AppManager.Cycle.{
  Callback, Application, Config, Machine, run_stage, run_counted, run_optional, after_hook,
  rendezvous_stage, finish_cycle, after_post, after_execute, after_pre, start_cycle, cycle, loop,
  account, after_callback, continues, End, left, exhausted, halted,
}

-- What the calls of an application leave alone.
abbrev pub Frame : Statics → Statics → Type 0
Frame g g' =
    (g'.app ≡ g.app)
    × (g'.platform ≡ g.platform)
    × (g'.signature_active ≡ g.signature_active)
    × (g.shutdown_requested ≡ true → g'.shutdown_requested ≡ true)

apply_call-Frame : (g : Statics) (x : AppCall) → Frame g (apply_call g x)
unfolding apply_call request_shutdown checkpoint_mark fold_mark
apply_call-Frame g x = ground arith

pub apply_calls-Frame : (g : Statics) (xs : List AppCall) → Frame g (apply_calls g xs)
unfolding apply_calls
apply_calls-Frame g [] = (refl, refl, refl, λ h. h)
apply_calls-Frame g (x ∷ xs) =
    let (a, b, d, e) = apply_call-Frame g x in
    let (a', b', d', e') = apply_calls-Frame (apply_call g x) xs in
    (a' ∙ a, b' ∙ b, d' ∙ d, λ h. e' (e h))

-- At most `n` errors, and a shutdown is requested if they reach the threshold.
abbrev pub Below : ℕ → ℕ → Statics → Type 0
Below t n g =
    (g.app.error_count ≤ n) × (0 < t → t ≤ g.app.error_count → g.shutdown_requested ≡ true)

-- The newest step is a callback from which control did not come back.
abbrev pub Stuck : List (Event Step) → Type 0
Stuck trace = (stage : Stage) × (t : List (Event Step)) × (trace ≡ called (ran stage none) ∷ t)

module _ {W : Type 0} (c : Config W) where
  -- What a stage does to the counters: a failure is one more error.
  abbrev pub Counted : Statics → Option Bool × Machine W → Type 0
  Counted g (p, s) =
      (s.statics.app.iteration_count ≡ g.app.iteration_count)
      × ((n : ℕ)
          → n + 1 < 2 ^ 32
          → Below c.error_threshold n g
          → Below c.error_threshold (n + 1) s.statics)
      × ((n : ℕ)
          → p ≡ some true
          → Below c.error_threshold n g
          → Below c.error_threshold n s.statics)
      × ((p ≡ some false → s.statics.app.error_count ≡ u32 (g.app.error_count + 1))
          × (p ≡ some true → s.statics.app.error_count ≡ g.app.error_count))
      × (p ≡ none → Stuck s.trace)

  handle_stage_result-Counted :
      (g g' : Statics) (stage : Stage) (status : Status) (s : Machine W)
      → Frame g g'
      → s.statics ≡ g'
      → Counted g (account c stage (some status, s))
  unfolding account handle_stage_result
  handle_stage_result-Counted g g' stage status s (a, b, d, e) h = (
    ground arith,
    λ n small (x, y). (ground arith, λ q r. ground arith),
    λ n q (x, y). (ground arith, λ u v. ground arith),
    (ground arith, λ q. ground arith),
    λ q. ground arith,
  )

  halted-Counted :
      (stage : Stage) (s : Machine W)
      → Counted s.statics (none, record s { trace = called (ran stage none) ∷ s.trace })
  halted-Counted stage s = (
    refl,
    λ n small (x, y). (omega arith, y),
    λ n q b. b,
    (λ q. ground arith, λ q. refl),
    λ q. (stage, s.trace, refl),
  )

  pub run_counted-Counted :
      (stage : Stage) (f : Callback W) (s : Machine W) → Counted s.statics (run_counted c stage f s)
  unfolding run_counted run_stage after_callback
  run_counted-Counted stage f s = elim (Option-cases (f s.world)) [
    | inl e ↦ rw e (halted-Counted stage s)
    | inr ((status, world, calls), e) ↦ rw e (
        handle_stage_result-Counted s.statics (apply_calls s.statics calls) stage status
          (record {
            statics = apply_calls s.statics calls;
            world = world;
            trace = called (ran stage (some status)) ∷ s.trace;
          })
          (apply_calls-Frame s.statics calls) refl)
  ]
