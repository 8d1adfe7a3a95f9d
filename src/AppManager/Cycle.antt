-- ===== src/AppManager/Cycle.antt =====
-- The loop of rte_appmanager_run: the stages of a cycle. A callback acts on a world of the application, and
-- on the statics by the calls that it makes, which take effect when it returns; a request to shut down
-- from a signal handler counts as one of the callback that it interrupts. The trace of what happens
-- outwards has the newest event first.
use platform_rte.Prelude.{
  ℕ, zero, suc, ◌+◌, List, ◌∷◌, ◌++◌, Option, none, some, Bool, true, false, not, ◌&&◌, ◌||◌, ltb,
  ◌==◌, if◌then◌else◌, u32,
}
use platform_rte.Platform.Status.{Status}
use platform_rte.Platform.Safestate.{Event, called}
use platform_rte.AppManager.{
  Statics, Stage, Step, ran, AppCall, apply_calls, handle_stage_result, signature_reset,
  fold_signature, pre_execute, execute, post_execute, checkpoint, on_checkpoint_result,
}

-- A callback: its status, the world it leaves, and its calls; `none` if control does not come back.
abbrev pub Callback : Type 0 → Type 0
Callback W = W → Option (Status × W × List AppCall)

-- `rte_appmanager_operations_t`; a NULL function is `none`, or false for the two that give a string.
pub record Operations (W : Type 0) : Type 0 where
  pub init : Option (Callback W)
  pub pre_execute : Option (Callback W)
  pub execute : Option (Callback W)
  pub post_execute : Option (Callback W)
  pub on_checkpoint_result : Option (Bool → Callback W)
  pub shutdown : Option (Callback W)
  pub gives_name : Bool
  pub gives_version : Bool

-- The operations of an application that has all mandatory ones.
pub record Application (W : Type 0) : Type 0 where
  pub init : Callback W
  pub pre_execute : Option (Callback W)
  pub execute : Callback W
  pub post_execute : Option (Callback W)
  pub on_checkpoint_result : Option (Bool → Callback W)
  pub shutdown : Callback W

-- `rte_appmanager_checkpoint_config_t`: whether the voter is there, which the application may change,
-- and `rte_channel_checkpoint` on it for a checkpoint_id, with the other fields.
pub record Rendezvous (W : Type 0) : Type 0 where
  pub has_voter : W → Bool
  pub meet : ℕ → Callback W

-- `rte_appmanager_config_t`; the context is part of the world.
pub record Config (W : Type 0) : Type 0 where
  pub ops : Option (Operations W)
  pub max_iterations : ℕ
  pub error_threshold : ℕ
  pub rendezvous : Option (Rendezvous W)

-- The statics, the world of the application and the trace.
pub record Machine (W : Type 0) : Type 0 where
  pub statics : Statics
  pub world : W
  pub trace : List (Event Step)

-- How the loop ends: by its condition, with the fuel, or in a callback that does not come back.
pub data End : Type 0 where
  left : End
  exhausted : End
  halted : End

module _ {W : Type 0} where
  unfoldable pub after_callback :
      Stage → Machine W → Option (Status × W × List AppCall) → Option Status × Machine W
  unfolding apply_calls
  after_callback stage s none = (none, record s { trace = called (ran stage none) ∷ s.trace })
  after_callback stage s (some (status, world, calls)) = (
    some status,
    record {
      statics = apply_calls s.statics calls;
      world = world;
      trace = called (ran stage (some status)) ∷ s.trace;
    },
  )

  -- A callback of the application, or the checkpoint.
  unfoldable pub run_stage : Stage → Callback W → Machine W → Option Status × Machine W
  unfolding after_callback
  run_stage stage f s = after_callback stage s (f s.world)

  unfoldable pub account : Config W → Stage → Option Status × Machine W → Option Bool × Machine W
  unfolding handle_stage_result
  account c stage (none, s) = (none, s)
  account c stage (some status, s) =
      let (proceed, g, lines) = handle_stage_result s.statics stage c.error_threshold status in
      (some proceed, record s { statics = g; trace = lines ++ s.trace })

  -- A stage of a cycle, with the accounting of its status: whether it succeeded.
  unfoldable pub run_counted : Config W → Stage → Callback W → Machine W → Option Bool × Machine W
  unfolding run_stage account
  run_counted c stage f s = account c stage (run_stage stage f s)

  unfoldable pub run_optional :
      Config W → Stage → Option (Callback W) → Machine W → Option Bool × Machine W
  unfolding run_counted
  run_optional c stage none s = (some true, s)
  run_optional c stage (some f) s = run_counted c stage f s

  abbrev pub after_hook : Option Bool × Machine W → Bool × Machine W
  after_hook (none, s) = (false, s)
  after_hook (some b, s) = (true, s)

  -- The hook with the outcome of the checkpoint: whether control comes back from the cycle.
  unfoldable pub finish_cycle :
      Config W → Application W → Option Bool × Machine W → Bool × Machine W
  unfolding run_optional
  finish_cycle c app (none, s) = (false, s)
  finish_cycle c app (some committed, s) = elim app.on_checkpoint_result [
    | none ↦ (true, s)
    | some hook ↦ after_hook (run_counted c (on_checkpoint_result committed) (hook committed) s)
  ]

  -- The checkpoint, if there is one and its voter is there.
  unfoldable pub rendezvous_stage : Config W → Machine W → Option Bool × Machine W
  unfolding run_counted fold_signature
  rendezvous_stage c s = elim c.rendezvous [
    | none ↦ (some true, s)
    | some r ↦
        let id = fold_signature s.statics.signature in
        if r.has_voter s.world then run_counted c (checkpoint id) (r.meet id) s else (some true, s)
  ]

  unfoldable pub after_post : Config W → Application W → Option Bool × Machine W → Bool × Machine W
  unfolding rendezvous_stage finish_cycle
  after_post c app (none, s) = (false, s)
  after_post c app (some b, s) = finish_cycle c app (rendezvous_stage c s)

  unfoldable pub after_execute :
      Config W → Application W → Option Bool × Machine W → Bool × Machine W
  unfolding after_post run_optional
  after_execute c app (none, s) = (false, s)
  after_execute c app (some false, s) = (true, s)
  after_execute c app (some true, s) =
      after_post c app (run_optional c post_execute app.post_execute s)

  unfoldable pub after_pre : Config W → Application W → Option Bool × Machine W → Bool × Machine W
  unfolding after_execute run_counted
  after_pre c app (none, s) = (false, s)
  after_pre c app (some false, s) = (true, s)
  after_pre c app (some true, s) = after_execute c app (run_counted c execute app.execute s)

  unfoldable pub start_cycle : Machine W → Machine W
  unfolding signature_reset
  start_cycle s =
      let a = s.statics.app in
      let counted = record (s.statics) {
        app = record a { iteration_count = u32 (a.iteration_count + 1) };
      } in
      record s { statics = signature_reset counted }

  -- The body of the loop: whether control comes back.
  unfoldable pub cycle : Config W → Application W → Machine W → Bool × Machine W
  unfolding start_cycle run_optional after_pre
  cycle c app s = after_pre c app (run_optional c pre_execute app.pre_execute (start_cycle s))

  -- The condition of the loop.
  unfoldable pub continues : Config W → Statics → Bool
  continues c g =
      not g.shutdown_requested
      && (c.max_iterations == 0 || ltb g.app.iteration_count c.max_iterations)

  -- The loop on fuel for so many cycles.
  unfoldable pub loop : Config W → Application W → ℕ → Machine W → End × Machine W
  unfolding continues cycle
  loop c app zero s = if continues c s.statics then (exhausted, s) else (left, s)
  loop c app (suc fuel) s =
      let (returns, s') = cycle c app s in
      let rest = loop c app fuel s' in
      if continues c s.statics then (if returns then rest else (halted, s')) else (left, s)
