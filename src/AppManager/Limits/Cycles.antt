-- ===== src/AppManager/Limits/Cycles.antt =====
-- The counters of the application manager over a cycle.
use platform_rte.Prelude.{
  ℕ, ◌+◌, ◌^◌, ◌≤◌, ◌<◌, ◌≡◌, refl, ◌∙◌, Option, none, some, Bool, true, false, arith, Option-cases,
  Bool-cases, inl, inr,
}
use platform_rte.AppManager.{
  Statics, Stage, pre_execute, execute, post_execute, checkpoint, on_checkpoint_result,
  fold_signature,
}
use platform_rte.AppManager.Cycle.{
  Callback, Application, Config, Machine, run_counted, run_optional, after_hook, rendezvous_stage,
  finish_cycle, after_post, after_execute, after_pre, start_cycle, cycle,
}
use platform_rte.AppManager.Limits.{Below, Stuck, Counted, run_counted-Counted}

module _ {W : Type 0} (c : Config W) where
  -- At most `k` more errors, and no more cycles.
  abbrev pub Adds : ℕ → Statics → Statics → Type 0
  Adds k g g' =
      (g'.app.iteration_count ≡ g.app.iteration_count)
      × ((n : ℕ)
          → n + k < 2 ^ 32
          → Below c.error_threshold n g
          → Below c.error_threshold (n + k) g')

  Adds-trans : (j k : ℕ) (g g' g'' : Statics) → Adds j g g' → Adds k g' g'' → Adds (j + k) g g''
  Adds-trans j k g g' g'' (i, a) (i', a') = (
    i' ∙ i,
    λ n small b. let (x, y) = a' (n + j) (omega arith) (a n (omega arith) b) in (omega arith, y),
  )

  Adds-more : (j k : ℕ) (g g' : Statics) → j ≤ k → Adds j g g' → Adds k g g'
  Adds-more j k g g' h (i, a) =
      (i, λ n small b. let (x, y) = a n (omega arith) b in (omega arith, y))

  Adds-none : (g : Statics) → Adds 0 g g
  Adds-none g = (refl, λ n small (x, y). (omega arith, y))

  -- What a part of a cycle does, which says whether control comes back.
  abbrev pub Passes : ℕ → Statics → Bool × Machine W → Type 0
  Passes k g (b, s) = Adds k g s.statics × (b ≡ false → Stuck s.trace)

  Counted-Adds : (g : Statics) (o : Option Bool × Machine W) → Counted c g o → Adds 1 g o.1.statics
  Counted-Adds g o (i, a, z, e, st) = (i, a)

  success-Adds :
      (g : Statics) (o : Option Bool × Machine W)
      → Counted c g o
      → o.0 ≡ some true
      → Adds 0 g o.1.statics
  success-Adds g o (i, a, z, e, st) q = (i, λ n small b. let (x, y) = z n q b in (omega arith, y))

  -- A part that ends with a stage that may be left out, or the checkpoint.
  abbrev Staged : Statics → Option Bool × Machine W → Type 0
  Staged g (p, s) = Adds 1 g s.statics × (p ≡ none → Stuck s.trace)

  run_counted-Staged :
      (stage : Stage) (f : Callback W) (s : Machine W) → Staged s.statics (run_counted c stage f s)
  run_counted-Staged stage f s =
      let (i, a, z, e, st) = run_counted-Counted c stage f s in ((i, a), st)

  skipped-Staged : (s : Machine W) → Staged s.statics (some true, s)
  skipped-Staged s =
      (Adds-more 0 1 s.statics s.statics (omega arith) (Adds-none s.statics), λ q. ground arith)

  run_optional-Staged :
      (stage : Stage) (f : Option (Callback W)) (s : Machine W)
      → Staged s.statics (run_optional c stage f s)
  unfolding run_optional
  run_optional-Staged stage none s = skipped-Staged s
  run_optional-Staged stage (some f) s = run_counted-Staged stage f s

  rendezvous_stage-Staged : (s : Machine W) → Staged s.statics (rendezvous_stage c s)
  unfolding rendezvous_stage
  rendezvous_stage-Staged s = elim (Option-cases c.rendezvous) [
    | inl e ↦ rw e (skipped-Staged s)
    | inr (r, e) ↦ elim (Bool-cases (r.has_voter s.world)) [
      | inl v ↦
          let id = fold_signature s.statics.signature in
          rw (e, v) (run_counted-Staged (checkpoint id) (r.meet id) s)
      | inr v ↦ rw (e, v) (skipped-Staged s)
    ]
  ]

  after_hook-Passes :
      (g : Statics) (o : Option Bool × Machine W) → Staged g o → Passes 1 g (after_hook o)
  after_hook-Passes g (none, s) (a, st) = (a, λ q. st refl)
  after_hook-Passes g (some b, s) (a, st) = (a, λ q. ground arith)

  chain :
      (j k : ℕ) (g g' : Statics) (o : Bool × Machine W)
      → Adds j g g'
      → Passes k g' o
      → Passes (j + k) g o
  chain j k g g' (b, s) a (a', st) = (Adds-trans j k g g' s.statics a a', st)

  module _ (app : Application W) where
    finish_cycle-Passes :
        (g : Statics) (o : Option Bool × Machine W) → Staged g o → Passes 2 g (finish_cycle c app o)
    unfolding finish_cycle
    finish_cycle-Passes g (none, s) (a, st) =
        (Adds-more 1 2 g s.statics (omega arith) a, λ q. st refl)
    finish_cycle-Passes g (some b, s) (a, st) = elim (Option-cases app.on_checkpoint_result) [
      | inl e ↦ rw e (Adds-more 1 2 g s.statics (omega arith) a, λ q. ground arith)
      | inr (hook, e) ↦
          let o = run_counted c (on_checkpoint_result b) (hook b) s in
          let h =
            after_hook-Passes s.statics o
              (run_counted-Staged (on_checkpoint_result b) (hook b) s) in
          rw e (chain 1 1 g s.statics (after_hook o) a h)
    ]

    after_post-Passes :
        (g : Statics) (o : Option Bool × Machine W) → Staged g o → Passes 3 g (after_post c app o)
    unfolding after_post
    after_post-Passes g (none, s) (a, st) =
        (Adds-more 1 3 g s.statics (omega arith) a, λ q. st refl)
    after_post-Passes g (some b, s) (a, st) =
        let o = rendezvous_stage c s in
        chain 1 2 g s.statics (finish_cycle c app o) a
          (finish_cycle-Passes s.statics o (rendezvous_stage-Staged s))

    after_execute-Passes :
        (g : Statics) (o : Option Bool × Machine W)
        → Counted c g o
        → Passes 3 g (after_execute c app o)
    unfolding after_execute
    after_execute-Passes g (none, s) h =
        let (i, a, z, e, st) = h in (Adds-more 1 3 g s.statics (omega arith) (i, a), λ q. st refl)
    after_execute-Passes g (some false, s) h = (
      Adds-more 1 3 g s.statics (omega arith) (Counted-Adds g (some false, s) h),
      λ q. ground arith,
    )
    after_execute-Passes g (some true, s) h =
        let o = run_optional c post_execute app.post_execute s in
        chain 0 3 g s.statics (after_post c app o) (success-Adds g (some true, s) h refl)
          (after_post-Passes s.statics o (run_optional-Staged post_execute app.post_execute s))

    after_pre-Passes :
        (g : Statics) (o : Option Bool × Machine W) → Counted c g o → Passes 3 g (after_pre c app o)
    unfolding after_pre
    after_pre-Passes g (none, s) h =
        let (i, a, z, e, st) = h in (Adds-more 1 3 g s.statics (omega arith) (i, a), λ q. st refl)
    after_pre-Passes g (some false, s) h = (
      Adds-more 1 3 g s.statics (omega arith) (Counted-Adds g (some false, s) h),
      λ q. ground arith,
    )
    after_pre-Passes g (some true, s) h =
        let o = run_counted c execute app.execute s in
        chain 0 3 g s.statics (after_execute c app o) (success-Adds g (some true, s) h refl)
          (after_execute-Passes s.statics o (run_counted-Counted c execute app.execute s))

    skipped-Counted : (s : Machine W) → Counted c s.statics (some true, s)
    skipped-Counted s = (
      refl,
      λ n small (x, y). (omega arith, y),
      λ n q b. b,
      (λ q. ground arith, λ q. refl),
      λ q. ground arith,
    )

    pub run_optional-Counted :
        (stage : Stage) (f : Option (Callback W)) (s : Machine W)
        → Counted c s.statics (run_optional c stage f s)
    unfolding run_optional
    run_optional-Counted stage none s = skipped-Counted s
    run_optional-Counted stage (some f) s = run_counted-Counted c stage f s

    -- A cycle fails at most three times, in the last three stages.
    pub cycle-Passes : (s : Machine W) → Passes 3 (start_cycle s).statics (cycle c app s)
    unfolding cycle
    cycle-Passes s =
        let o = run_optional c pre_execute app.pre_execute (start_cycle s) in
        after_pre-Passes (start_cycle s).statics o
          (run_optional-Counted pre_execute app.pre_execute (start_cycle s))
