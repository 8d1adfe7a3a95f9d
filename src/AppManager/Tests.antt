-- ===== src/AppManager/Tests.antt =====
-- Runs of the application manager, and examples of the theorems on it.
use platform_rte.Prelude.{
  ℕ, ◌+◌, ◌≡◌, refl, List, [], ◌∷◌, none, some, true, false, leb, if◌then◌else◌, arith,
}
use platform_rte.Prelude.Int.{pos}
use platform_rte.Platform.Status.{Status, ok, timeout, internal_error}
use platform_rte.Checksum.{zero_stats, xz}
use platform_rte.AppManager.{Statics, AppCall, marks, uninitialized, fold_signature, seed}
use platform_rte.AppManager.Cycle.{Callback, Operations, Application, Config, Machine}
use platform_rte.AppManager.Run.{run, returned, ExitCode, exit_failure}
use platform_rte.AppManager.Commits.{commits}
use platform_rte.AppManager.Commits.Runs.{commits-run}
use platform_rte.AppManager.Limits.Runs.{RunFate, run-Fate}
use platform_rte.AppManager.Limits.Failing.{Fails, AlwaysReturns, failing_run_returns}

abbrev statics : Statics
statics = record {
  app = record { state = uninitialized; iteration_count = 0; error_count = 0; last_error = ok };
  shutdown_requested = false;
  signature = 0;
  signature_active = false;
  platform = record {
    setup_locked = false;
    degraded_handler = none;
    safe_handler = none;
    reboot_handler = none;
  };
  checksum = record { initialized = false; polynomial = xz; table = none; stats = zero_stats };
}

abbrev machine : Machine ℕ
machine = record { statics = statics; world = 0; trace = [] }

-- A callback that counts, and returns a status and calls by the count.
abbrev counting : (ℕ → Status) → (ℕ → List AppCall) → Callback ℕ
counting status calls w = some (status w, w + 1, calls w)

abbrev always_ok : Callback ℕ
always_ok = counting (λ w. ok) (λ w. [])

abbrev always_fails : Callback ℕ
always_fails = counting (λ w. internal_error) (λ w. [])

-- Two replicas that agree in the first cycle and not in the second.
abbrev ops : Operations ℕ
ops = record {
  init = some always_ok;
  pre_execute = none;
  execute = some (counting (λ w. ok) (λ w. marks none (pos 0) (some (65 ∷ [])) ∷ []));
  post_execute = some always_ok;
  on_checkpoint_result = some (λ committed. always_ok);
  shutdown = some always_ok;
  gives_name = true;
  gives_version = true;
}

abbrev config : Config ℕ
config = record {
  ops = some ops;
  max_iterations = 2;
  error_threshold = 3;
  rendezvous = some (record {
    has_voter = λ w. true;
    meet = λ id. counting (λ w. if leb w 4 then ok else timeout) (λ w. []);
  });
}

abbrev application : Application ℕ
application = record {
  init = always_ok;
  pre_execute = none;
  execute = counting (λ w. ok) (λ w. marks none (pos 0) (some (65 ∷ [])) ∷ []);
  post_execute = some always_ok;
  on_checkpoint_result = some (λ committed. always_ok);
  shutdown = always_ok;
}

one_disagreement : (run (some config) 2 machine).0 ≡ returned exit_failure
unfolding run
one_disagreement = refl

counts : (run (some config) 2 machine).1.statics.app.error_count ≡ 1
unfolding run
counts = refl

no_marks : fold_signature seed ≡ 0
unfolding fold_signature
no_marks = refl

commits-run_example : commits (run (some config) 2 machine).1.trace ≡ true
commits-run_example = commits-run (some config) 2 machine refl

run-Fate_example : RunFate config 2 (run (some config) 2 machine)
run-Fate_example =
    run-Fate config ops application 2 machine refl refl refl (omega arith) (omega arith)

abbrev failing_ops : Operations ℕ
failing_ops = record ops { execute = some always_fails; on_checkpoint_result = none }

abbrev failing : Config ℕ
failing = record config { ops = some failing_ops; max_iterations = 0 }

abbrev failing_application : Application ℕ
failing_application = record application { execute = always_fails; on_checkpoint_result = none }

never_ok : Fails always_fails
never_ok w = refl

comes_back : AlwaysReturns always_ok
comes_back w q = ground arith

failing_run_returns_example : (code : ExitCode) × ((run (some failing) 3 machine).0 ≡ returned code)
failing_run_returns_example =
    failing_run_returns failing failing_ops failing_application 3 machine refl refl refl
      (omega arith) (omega arith) (omega arith) comes_back tt never_ok comes_back (omega arith)
