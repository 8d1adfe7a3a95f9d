-- ===== src/AppManager/Commits.antt =====
-- The hook for the outcome of a checkpoint, over the cycles of a run. Whole runs are in Runs.
pub mod Runs
use platform_rte.Prelude.{
  ℕ, zero, suc, List, [], ◌∷◌, ◌++◌, ◌≡◌, refl, sym, ap, ◌∙◌, Option, none, some, Bool, true, false,
  ◌&&◌, ◌||◌, not, if◌then◌else◌, arith, Option-cases, Bool-cases, inl, inr,
}
use platform_rte.Platform.Status.{Status, is_ok}
use platform_rte.Platform.Safestate.{Event, logged, called, handled}
use platform_rte.AppManager.{
  Stage, AppState, Step, ran, reset_to, handle_stage_result, pre_execute, execute, post_execute,
  checkpoint, on_checkpoint_result, AppCall, apply_calls, fold_signature,
}
use platform_rte.AppManager.Cycle.{
  Callback, Application, Operations, Config, Machine, run_stage, run_counted, run_optional,
  after_hook, rendezvous_stage, finish_cycle, after_post, after_execute, after_pre, start_cycle,
  cycle, loop, account, after_callback, End, left, exhausted, halted,
}
use platform_rte.AppManager.Run.{
  Ended, run, run_with, run_complete, run_application, after_init, after_cycles, after_shutdown,
  failed_init, shut_down, start_running, note_failed_init, complete, is_active,
}

-- What the hook is to be told after a trace, the newest event first: whether the outputs of the cycle may be
-- sent, if its main stage succeeded.
abbrev pub due : List (Event Step) → Option Bool
due [] = none
due (called (ran execute (some status)) ∷ t) = if is_ok status then some true else none
due (called (ran post_execute r) ∷ t) = due t
due (called (ran (checkpoint id) (some status)) ∷ t) = some (is_ok status)
due (called (ran _ _) ∷ t) = none
due (logged l ∷ t) = due t
due (handled h l r ∷ t) = due t

abbrev tells : Bool → Option Bool → Bool
tells b none = false
tells true (some d) = d
tells false (some d) = not d

-- Each checkpoint comes after a main stage that succeeded, and each call of the hook tells what is due.
abbrev pub commits : List (Event Step) → Bool
commits [] = true
commits (called (ran (checkpoint id) r) ∷ t) = tells true (due t) && commits t
commits (called (ran (on_checkpoint_result b) r) ∷ t) = tells b (due t) && commits t
commits (e ∷ t) = commits t

-- The trace is as it should be.
abbrev pub Keeps : List (Event Step) → Type 0
Keeps t = commits t ≡ true

module _ {W : Type 0} (c : Config W) where
  -- A trace that stands for a stage that ran with this result.
  abbrev Ran : Stage → List (Event Step) → Option Bool × Machine W → Type 0
  Ran stage t (p, s) =
      (r : Option Status) × (p ≡ elim r [ none ↦ none | some status ↦ some (is_ok status) ])
      × (due s.trace ≡ due (called (ran stage r) ∷ t))
      × (commits s.trace ≡ commits (called (ran stage r) ∷ t))

  account-Ran :
      (stage : Stage) (t : List (Event Step)) (r : Option Status) (s : Machine W)
      → s.trace ≡ called (ran stage r) ∷ t
      → Ran stage t (account c stage (r, s))
  unfolding account handle_stage_result
  account-Ran stage t none s e = (none, refl, ap due e, ap commits e)
  account-Ran stage t (some status) s e = (some status, ground arith, ground arith, ground arith)

  run_counted-Ran :
      (stage : Stage) (f : Callback W) (s : Machine W) → Ran stage s.trace (run_counted c stage f s)
  unfolding run_counted run_stage after_callback
  run_counted-Ran stage f s = elim (Option-cases (f s.world)) [
    | inl e ↦ rw e (
        account-Ran stage s.trace none (record s { trace = called (ran stage none) ∷ s.trace })
          refl)
    | inr ((status, world, calls), e) ↦ rw e (
        account-Ran stage s.trace (some status)
          (record {
            statics = apply_calls s.statics calls;
            world = world;
            trace = called (ran stage (some status)) ∷ s.trace;
          })
          refl)
  ]

  -- The trace is as it should be, and so is the next thing that the hook is told.
  abbrev Tells : Option Bool × Machine W → Type 0
  Tells (p, s) = Keeps s.trace × ((b : Bool) → p ≡ some b → due s.trace ≡ some b)

  after_hook_trace : (o : Option Bool × Machine W) → (after_hook o).1.trace ≡ o.1.trace
  after_hook_trace (none, s) = refl
  after_hook_trace (some b, s) = refl

  hook-Keeps :
      (b : Bool) (r : Option Status) (t : List (Event Step))
      → Keeps t
      → due t ≡ some b
      → Keeps (called (ran (on_checkpoint_result b) r) ∷ t)
  hook-Keeps true r t h d = rw (d, h) refl
  hook-Keeps false r t h d = rw (d, h) refl

  checkpoint-Tells :
      (id : ℕ) (r : Option Status) (t : List (Event Step)) (o : Option Bool × Machine W)
      → Keeps t
      → due t ≡ some true
      → o.0 ≡ elim r [ none ↦ none | some status ↦ some (is_ok status) ]
      → due o.1.trace ≡ due (called (ran (checkpoint id) r) ∷ t)
      → commits o.1.trace ≡ commits (called (ran (checkpoint id) r) ∷ t)
      → Tells o
  checkpoint-Tells id none t (p, s) h d e ed ec = (rw (ec, d, h) refl, λ b eb. ground arith)
  checkpoint-Tells id (some status) t (p, s) h d e ed ec =
      (rw (ec, d, h) refl, λ b eb. rw ed (sym e ∙ eb))

  rendezvous_stage-Tells :
      (s : Machine W) → Keeps s.trace → due s.trace ≡ some true → Tells (rendezvous_stage c s)
  unfolding rendezvous_stage
  rendezvous_stage-Tells s h d = elim (Option-cases c.rendezvous) [
    | inl e ↦ rw e (h, λ b eb. rw d eb)
    | inr (r, e) ↦ elim (Bool-cases (r.has_voter s.world)) [
      | inl v ↦
          let id = fold_signature s.statics.signature in
          let (x, p, ed, ec) = run_counted-Ran (checkpoint id) (r.meet id) s in
          rw (e, v)
            (checkpoint-Tells id x s.trace (run_counted c (checkpoint id) (r.meet id) s) h d p ed
              ec)
      | inr v ↦ rw (e, v) (h, λ b eb. rw d eb)
    ]
  ]

  module _ (app : Application W) where
    finish_cycle-Keeps :
        (o : Option Bool × Machine W) → Tells o → Keeps (finish_cycle c app o).1.trace
    unfolding finish_cycle
    finish_cycle-Keeps (none, s) (h, d) = h
    finish_cycle-Keeps (some b, s) (h, d) = elim (Option-cases app.on_checkpoint_result) [
      | inl e ↦ rw e h
      | inr (hook, e) ↦
          let o = run_counted c (on_checkpoint_result b) (hook b) s in
          let (r, p, ed, ec) = run_counted-Ran (on_checkpoint_result b) (hook b) s in
          rw e (ap commits (after_hook_trace o) ∙ ec ∙ hook-Keeps b r s.trace h (d b refl))
    ]

    run_optional_post :
        (s : Machine W)
        → Keeps s.trace
        → due s.trace ≡ some true
        → Keeps (run_optional c post_execute app.post_execute s).1.trace
          × (due (run_optional c post_execute app.post_execute s).1.trace ≡ some true)
    unfolding run_optional
    run_optional_post s h d = elim (Option-cases app.post_execute) [
      | inl e ↦ rw e (h, d)
      | inr (f, e) ↦ let (r, p, ed, ec) = run_counted-Ran post_execute f s in rw e (ec ∙ h, ed ∙ d)
    ]

    after_post-Keeps :
        (o : Option Bool × Machine W)
        → Keeps o.1.trace
        → due o.1.trace ≡ some true
        → Keeps (after_post c app o).1.trace
    unfolding after_post
    after_post-Keeps (none, s) h d = h
    after_post-Keeps (some b, s) h d =
        finish_cycle-Keeps (rendezvous_stage c s) (rendezvous_stage-Tells s h d)

    after_execute-Keeps :
        (o : Option Bool × Machine W)
        → Keeps o.1.trace
        → (o.0 ≡ some true → due o.1.trace ≡ some true)
        → Keeps (after_execute c app o).1.trace
    unfolding after_execute
    after_execute-Keeps (none, s) h d = h
    after_execute-Keeps (some false, s) h d = h
    after_execute-Keeps (some true, s) h d =
        let (h', d') = run_optional_post s h (d refl) in
        after_post-Keeps (run_optional c post_execute app.post_execute s) h' d'

    execute_tells :
        (r : Option Status) (t : List (Event Step)) (p : Option Bool)
        → p ≡ elim r [ none ↦ none | some status ↦ some (is_ok status) ]
        → p ≡ some true
        → due (called (ran execute r) ∷ t) ≡ some true
    execute_tells r t p e f = ground arith

    after_pre-Keeps :
        (o : Option Bool × Machine W) → Keeps o.1.trace → Keeps (after_pre c app o).1.trace
    unfolding after_pre
    after_pre-Keeps (none, s) h = h
    after_pre-Keeps (some false, s) h = h
    after_pre-Keeps (some true, s) h =
        let (r, p, ed, ec) = run_counted-Ran execute app.execute s in
        let o = run_counted c execute app.execute s in
        after_execute-Keeps o (ec ∙ h) (λ q. ed ∙ execute_tells r s.trace o.0 p q)

    cycle-Keeps : (s : Machine W) → Keeps s.trace → Keeps (cycle c app s).1.trace
    unfolding cycle run_optional start_cycle
    cycle-Keeps s h = elim (Option-cases app.pre_execute) [
      | inl e ↦ rw e (after_pre-Keeps (some true, start_cycle s) h)
      | inr (f, e) ↦
          let (r, p, ed, ec) = run_counted-Ran pre_execute f (start_cycle s) in
          rw e (after_pre-Keeps (run_counted c pre_execute f (start_cycle s)) (ec ∙ h))
    ]

    pub loop-Keeps : (fuel : ℕ) (s : Machine W) → Keeps s.trace → Keeps (loop c app fuel s).1.trace
    unfolding loop
    loop-Keeps zero s h = ground arith
    loop-Keeps (suc fuel) s h =
        let next = loop-Keeps fuel (cycle c app s).1 (cycle-Keeps s h) in
        ground (arith, next, cycle-Keeps s h)
