-- ===== src/AppManager/Limits/Loops.antt =====
-- The counters of the application manager over the loop of a run, and how the loop ends.
use platform_rte.Prelude.{
  ℕ, zero, suc, ◌+◌, ◌-◌, ◌^◌, ◌≤◌, ◌<◌, ◌≡◌, sym, subst, ◌∙◌, true, arith, Bool-cases, inl, inr,
}
use platform_rte.AppManager.{Statics}
use platform_rte.AppManager.Cycle.{
  Application, Config, Machine, start_cycle, cycle, loop, continues, End, left, exhausted, halted,
}
use platform_rte.AppManager.Limits.{Below, Stuck}
use platform_rte.AppManager.Limits.Cycles.{cycle-Passes}

-- The counters of a run so far.
abbrev pub Limited : {W : Type 0} → Config W → Statics → Type 0
Limited c g =
    (0 < c.max_iterations → g.app.iteration_count ≤ c.max_iterations)
    × (0 < c.error_threshold → Below c.error_threshold (c.error_threshold + 2) g)

-- How the loop ends: within its limits; or without fuel, before the last of its cycles; or stuck.
abbrev pub LoopFate : {W : Type 0} → Config W → ℕ → Statics → End × Machine W → Type 0
LoopFate c fuel g (left, s) = Limited c s.statics
LoopFate c fuel g (exhausted, s) =
    0 < c.max_iterations → g.app.iteration_count + fuel < c.max_iterations
LoopFate c fuel g (halted, s) = Stuck s.trace

module _ {W : Type 0} (c : Config W) (app : Application W) (few : c.max_iterations < 2 ^ 32)
    (low : c.error_threshold + 2 < 2 ^ 32) where
  under_limit :
      (g : Statics)
      → 0 < c.error_threshold
      → continues c g ≡ true
      → Below c.error_threshold (c.error_threshold + 2) g
      → Below c.error_threshold (c.error_threshold - 1) g
  unfolding continues
  under_limit g pos h (x, y) = (ground arith, y)

  start_cycle_count :
      (s : Machine W)
      → (continues c s.statics ≡ true)
      → (0 < c.max_iterations → s.statics.app.iteration_count ≤ c.max_iterations)
      → 0 < c.max_iterations
      → (start_cycle s).statics.app.iteration_count ≡ s.statics.app.iteration_count + 1
        × (s.statics.app.iteration_count + 1 ≤ c.max_iterations)
  unfolding start_cycle continues
  start_cycle_count s h i m = (ground arith, ground arith)

  start_cycle-Below :
      (n : ℕ) (s : Machine W)
      → Below c.error_threshold n s.statics
      → Below c.error_threshold n (start_cycle s).statics
  unfolding start_cycle
  start_cycle-Below n s b = b

  pub cycle-Limited :
      (s : Machine W)
      → continues c s.statics ≡ true
      → Limited c s.statics
      → Limited c (cycle c app s).1.statics
  cycle-Limited s h (i, b) =
      let ((it, add), stuck) = cycle-Passes c app s in
      (
        λ m.
            let (e, l) = start_cycle_count s h i m in
            subst (λ n. n ≤ c.max_iterations) (sym (it ∙ e)) l,
        λ pos.
            let (x, y) =
              add (c.error_threshold - 1) (omega arith) (
                start_cycle-Below (c.error_threshold - 1) s
                  (under_limit s.statics pos h (b pos))) in
            (omega arith, y),
      )

  iterations_left :
      (g : Statics)
      → continues c g ≡ true
      → 0 < c.max_iterations
      → g.app.iteration_count + 0 < c.max_iterations
  unfolding continues
  iterations_left g h m = ground arith

  one_more :
      (fuel : ℕ) (s : Machine W)
      → continues c s.statics ≡ true
      → Limited c s.statics
      → (o : End × Machine W) → LoopFate c fuel (cycle c app s).1.statics o
      → LoopFate c (suc fuel) s.statics o
  one_more fuel s h (i, b) (left, s') f = f
  one_more fuel s h (i, b) (exhausted, s') f = λ m.
      let (e, l) = start_cycle_count s h i m in
      let ((it, add), stuck) = cycle-Passes c app s in
      let known : (cycle c app s).1.statics.app.iteration_count
          ≡ s.statics.app.iteration_count + 1 =
        it ∙ e in
      omega (arith, known, f m)
  one_more fuel s h l (halted, s') f = f

  pub loop-Fate :
      (fuel : ℕ) (s : Machine W)
      → Limited c s.statics
      → LoopFate c fuel s.statics (loop c app fuel s)
  unfolding loop
  loop-Fate zero s l = elim (Bool-cases (continues c s.statics)) [
    | inl h ↦ rw h (iterations_left s.statics h)
    | inr h ↦ rw h l
  ]
  loop-Fate (suc fuel) s l = elim (Bool-cases (continues c s.statics)) [
    | inl h ↦ elim (Bool-cases (cycle c app s).0) [
      | inl r ↦
          rw (h, r)
            (one_more fuel s h l (loop c app fuel (cycle c app s).1)
              (loop-Fate fuel (cycle c app s).1 (cycle-Limited s h l)))
      | inr r ↦ rw (h, r) (let (a, stuck) = cycle-Passes c app s in stuck r)
    ]
    | inr h ↦ rw h l
  ]
