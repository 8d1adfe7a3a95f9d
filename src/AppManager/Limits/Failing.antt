-- ===== src/AppManager/Limits/Failing.antt =====
-- A run of an application that always fails ends by the error threshold.
use platform_rte.Prelude.{
  ℕ, zero, suc, ◌+◌, ◌^◌, ◌≤◌, ◌<◌, List, ◌∷◌, ◌≡◌, ◌≢◌, refl, ap, subst, ◌∙◌, Option, none, some,
  Bool, true, false, arith, Option-cases, Bool-cases, inl, inr, u32,
}
use platform_rte.Platform.Status.{Status, is_ok}
use platform_rte.Platform.Safestate.{logged}
use platform_rte.AppManager.{
  AppStats, Statics, Stage, AppState, reset_to, handle_stage_result, pre_execute, execute, AppCall,
}
use platform_rte.AppManager.Cycle.{
  Callback, Application, Operations, Config, Machine, run_stage, run_counted, run_optional,
  after_execute, after_pre, start_cycle, cycle, loop, account, after_callback, continues, End, left,
  exhausted, halted,
}
use platform_rte.AppManager.Run.{
  Ended, ExitCode, exit_failure, returned, exit_code, run, run_with, run_complete, run_application,
  after_init, after_cycles, after_shutdown, failed_init, shut_down, start_running, note_failed_init,
  complete, is_active,
}
use platform_rte.AppManager.Limits.{Counted, run_counted-Counted}
use platform_rte.AppManager.Limits.Cycles.{run_optional-Counted}
use platform_rte.AppManager.Limits.Loops.{Limited, cycle-Limited}
use platform_rte.AppManager.Limits.Runs.{run_stage-Staged}

-- A callback that comes back, and one that comes back and does not give OK.
abbrev pub AlwaysReturns : {W : Type 0} → Callback W → Type 0
AlwaysReturns f = (w : _) → f w ≢ none

abbrev FailsWith : {W : Type 0} → Option (Status × W × List AppCall) → Type 0
FailsWith none = ⊥
FailsWith (some (status, world, calls)) = is_ok status ≡ false

abbrev pub Fails : {W : Type 0} → Callback W → Type 0
Fails f = (w : _) → FailsWith (f w)

-- An optional callback that comes back if it is there.
abbrev pub AlwaysReturnsIfThere : {W : Type 0} → Option (Callback W) → Type 0
AlwaysReturnsIfThere none = Unit
AlwaysReturnsIfThere (some f) = AlwaysReturns f

run_stage_returns :
    {W : Type 0} (stage : Stage) (f : Callback W) (s : Machine W)
    → AlwaysReturns f
    → (status : Status) × ((run_stage stage f s).0 ≡ some status)
unfolding run_stage after_callback
run_stage_returns stage f s r = elim (Option-cases (f s.world)) [
  | inl e ↦ absurd (r s.world e)
  | inr ((status, world, calls), e) ↦ (status, rw e refl)
]

module _ {W : Type 0} (c : Config W) (app : Application W) (fails : Fails app.execute)
    (prepares : AlwaysReturnsIfThere app.pre_execute) (ends : AlwaysReturns app.shutdown) where
  execute_fails : (s : Machine W) → (run_counted c execute app.execute s).0 ≡ some false
  unfolding run_counted run_stage after_callback account handle_stage_result
  execute_fails s = elim (Option-cases (app.execute s.world)) [
    | inl e ↦ let f : ⊥ = subst FailsWith e (fails s.world) in absurd f
    | inr ((status, world, calls), e) ↦
        let f : is_ok status ≡ false = subst FailsWith e (fails s.world) in rw e (ground (arith, f))
  ]

  pre_execute_returns : (s : Machine W) → (run_optional c pre_execute app.pre_execute s).0 ≢ none
  unfolding run_optional run_counted run_stage after_callback account
  pre_execute_returns s = elim (Option-cases app.pre_execute) [
    | inl e ↦ rw e (λ q. ground arith)
    | inr (f, e) ↦
        let r : AlwaysReturns f = subst AlwaysReturnsIfThere e prepares in
        elim (Option-cases (f s.world)) [
          | inl n ↦ absurd (r s.world n)
          | inr ((status, world, calls), k) ↦ rw (e, k) (λ q. ground arith)
        ]
  ]

  after_execute_returns :
      (o : Option Bool × Machine W) → o.0 ≡ some false → (after_execute c app o).0 ≡ true
  unfolding after_execute
  after_execute_returns (none, s) q = ground arith
  after_execute_returns (some false, s) q = refl
  after_execute_returns (some true, s) q = ground arith

  after_pre_returns : (o : Option Bool × Machine W) → o.0 ≢ none → (after_pre c app o).0 ≡ true
  unfolding after_pre
  after_pre_returns (none, s) n = absurd (n refl)
  after_pre_returns (some false, s) n = refl
  after_pre_returns (some true, s) n =
      after_execute_returns (run_counted c execute app.execute s) (execute_fails s)

  cycle_returns : (s : Machine W) → (cycle c app s).0 ≡ true
  unfolding cycle
  cycle_returns s =
      after_pre_returns (run_optional c pre_execute app.pre_execute (start_cycle s))
        (pre_execute_returns (start_cycle s))

  after_execute_fails :
      (g : Statics) (o : Option Bool × Machine W)
      → o.0 ≡ some false
      → Counted c g o
      → (after_execute c app o).0 ≡ true
      → (after_execute c app o).1.statics.app.error_count ≡ u32 (g.app.error_count + 1)
  unfolding after_execute
  after_execute_fails g (none, s) n h q = ground arith
  after_execute_fails g (some false, s) n (i, a, z, (e, e'), st) q = e refl
  after_execute_fails g (some true, s) n h q = ground arith

  after_pre_fails :
      (g : Statics) (o : Option Bool × Machine W)
      → Counted c g o
      → (after_pre c app o).0 ≡ true
      → (after_pre c app o).1.statics.app.error_count ≡ u32 (g.app.error_count + 1)
  unfolding after_pre
  after_pre_fails g (none, s) h q = ground arith
  after_pre_fails g (some false, s) (i, a, z, (e, e'), st) q = e refl
  after_pre_fails g (some true, s) (i, a, z, (e, e'), st) q =
      after_execute_fails s.statics (run_counted c execute app.execute s) (execute_fails s)
        (run_counted-Counted c execute app.execute s) q
      ∙ ap (λ (n : ℕ). u32 (n + 1)) (e' refl)

  cycle_fails :
      (s : Machine W)
      → (cycle c app s).0 ≡ true
      → (cycle c app s).1.statics.app.error_count ≡ u32 (s.statics.app.error_count + 1)
  unfolding cycle start_cycle
  cycle_fails s q =
      after_pre_fails (start_cycle s).statics
        (run_optional c pre_execute app.pre_execute (start_cycle s))
        (run_optional-Counted c app pre_execute app.pre_execute (start_cycle s)) q

  module _ (few : c.max_iterations < 2 ^ 32) (low : c.error_threshold + 2 < 2 ^ 32)
      (limit : 0 < c.error_threshold) where
    stops :
        (g : Statics) → Limited c g → c.error_threshold ≤ g.app.error_count → continues c g ≡ false
    unfolding continues
    stops g (i, b) h = let (x, y) = b limit in rw (y limit h) refl

    still_below :
        (g : Statics) → Limited c g → continues c g ≡ true → g.app.error_count < c.error_threshold
    unfolding continues
    still_below g (i, b) e = let (x, y) = b limit in ground arith

    loop_ends :
        (fuel : ℕ) (s : Machine W)
        → Limited c s.statics
        → c.error_threshold ≤ s.statics.app.error_count + fuel
        → (loop c app fuel s).0 ≡ left
    unfolding loop
    loop_ends zero s l h = rw (stops s.statics l (omega (arith, h))) refl
    loop_ends (suc fuel) s l h = elim (Bool-cases (continues c s.statics)) [
      | inl e ↦
          let r = cycle_returns s in
          let below : s.statics.app.error_count < c.error_threshold = still_below s.statics l e in
          let l' = cycle-Limited c app few low s e l in
          rw (e, r)
            (loop_ends fuel (cycle c app s).1 l' (grind (arith, cycle_fails s r, below, h, low)))
      | inr e ↦ rw e refl
    ]

    -- A run that comes back with an exit code.
    abbrev ComesBack : Ended × Machine W → Type 0
    ComesBack o = (code : ExitCode) × (o.0 ≡ returned code)

    after_shutdown-ComesBack :
        (o : Option Status × Machine W) (status : Status)
        → o.0 ≡ some status
        → ComesBack (after_shutdown c o)
    unfolding after_shutdown
    after_shutdown-ComesBack (none, s) status e = ground arith
    after_shutdown-ComesBack (some status', s) status e = (exit_code c s.statics, refl)

    after_cycles-ComesBack : (o : End × Machine W) → o.0 ≡ left → ComesBack (after_cycles c app o)
    unfolding after_cycles
    after_cycles-ComesBack (left, s) n =
        let s' = record s { statics = shut_down s.statics } in
        let (status, e) = run_stage_returns Stage.shutdown app.shutdown s' ends in
        after_shutdown-ComesBack (run_stage Stage.shutdown app.shutdown s') status e
    after_cycles-ComesBack (exhausted, s) n = ground arith
    after_cycles-ComesBack (halted, s) n = ground arith

    failed_init-ComesBack :
        (o : Option Status × Machine W) (status : Status)
        → o.0 ≡ some status
        → ComesBack (failed_init o)
    failed_init-ComesBack (none, s) status e = ground arith
    failed_init-ComesBack (some status', s) status e = (exit_failure, refl)

    after_init-ComesBack :
        (fuel : ℕ) (o : Option Status × Machine W) (status : Status)
        → o.0 ≡ some status
        → c.error_threshold ≤ fuel
        → o.1.statics.app.iteration_count ≡ 0
        → o.1.statics.app.error_count ≡ 0
        → ComesBack (after_init c app fuel o)
    unfolding after_init start_running
    after_init-ComesBack fuel (none, s) status r h i e = ground arith
    after_init-ComesBack fuel (some status', s) status r h i e = elim (Bool-cases (is_ok status')) [
      | inl k ↦
          let s' = record s { statics = start_running s.statics } in
          rw k (
            after_cycles-ComesBack (loop c app fuel s') (
              loop_ends fuel s'
                (
                  λ m. omega (arith, i),
                  λ m. (omega (arith, e), λ p q. absurd (omega (arith, e, p, q))),
                )
                (omega (arith, h, e))))
      | inr k ↦
          let noted = record s {
            statics = note_failed_init s.statics status';
            trace = logged "Initialization failed" ∷ s.trace;
          } in
          let (status'', q) = run_stage_returns Stage.shutdown app.shutdown noted ends in
          rw k (failed_init-ComesBack (run_stage Stage.shutdown app.shutdown noted) status'' q)
    ]

    run_application-ComesBack :
        (fuel : ℕ) (s : Machine W)
        → AlwaysReturns app.init
        → c.error_threshold ≤ fuel
        → ComesBack (run_application c app fuel s)
    unfolding run_application reset_to
    run_application-ComesBack fuel s begins h =
        let s' = record s {
          statics = reset_to AppState.initializing s.statics;
          trace = logged "starting" ∷ s.trace;
        } in
        let ((a, p, q, k), r, st) = run_stage-Staged Stage.init app.init s' in
        let (status, e) = run_stage_returns Stage.init app.init s' begins in
        after_init-ComesBack fuel (run_stage Stage.init app.init s') status e h
          (ap (λ (x : AppStats). x.iteration_count) a) (ap (λ (x : AppStats). x.error_count) a)

-- With an error threshold above 0 and below 2 ^ 32 - 2, a run that starts while no run is active, of an
-- application with all mandatory operations whose init, shutdown and, if it has one, pre_execute always
-- come back, and whose execute always comes back without OK, itself comes back with an exit code, whatever
-- the limit on the cycles: fuel for as many cycles as the threshold is enough.
pub failing_run_returns :
    {W : Type 0} (c : Config W) (ops : Operations W) (app : Application W) (fuel : ℕ)
    (s : Machine W)
    → c.ops ≡ some ops
    → complete ops ≡ some app
    → is_active s.statics.app.state ≡ false
    → c.max_iterations < 2 ^ 32
    → 0 < c.error_threshold
    → c.error_threshold + 2 < 2 ^ 32
    → AlwaysReturns app.init
    → AlwaysReturnsIfThere app.pre_execute
    → Fails app.execute
    → AlwaysReturns app.shutdown
    → c.error_threshold ≤ fuel
    → (code : ExitCode) × ((run (some c) fuel s).0 ≡ returned code)
unfolding run run_with run_complete
failing_run_returns c ops app fuel s e e' h few limit low begins prepares fails ends enough =
    rw (e, e', h)
      (run_application-ComesBack c app fails prepares ends few low limit fuel s begins enough)
