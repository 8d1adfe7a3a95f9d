-- ===== src/AppManager.antt =====
-- rte_appmanager.c: the statics of the application manager, the accounting of failed stages, and the
-- marks of a cycle. The stages of a cycle are in Cycle, the run of an application in Run.
pub mod Cycle
pub mod Run
pub mod Limits
pub mod Commits
pub mod Synchronized
mod Tests
use Prim.Native.Nat.{bit_xor}
use platform_rte.Prelude.{
  ℕ, zero, suc, ◌+◌, ◌*◌, ◌/◌, ◌%◌, ◌^◌, List, [], ◌∷◌, ◌++◌, Option, none, some, Bool, true, false,
  ◌&&◌, ltb, leb, if◌then◌else◌, take, u32,
}
use platform_rte.Prelude.Int.{ℤ, pos, negsuc}
use platform_rte.Platform.Status.{Status, ok, invalid_param, is_ok, elements}
use platform_rte.Platform.Safestate.{Event, logged, Platform}
use platform_rte.Platform.Lifecycle.{unlock}
use platform_rte.Checksum.{ChecksumManager, Polynomial, crc64, crc64_init}

-- `rte_app_state_t`
pub data AppState : Type 0 where
  uninitialized : AppState
  initializing : AppState
  running : AppState
  shutting_down : AppState
  shutdown : AppState
  error : AppState

-- `rte_appmanager_state_t`, with uint32_t counters.
pub record AppStats : Type 0 where
  pub state : AppState
  pub iteration_count : ℕ
  pub error_count : ℕ
  pub last_error : Status

-- `g_app_state`, `g_shutdown_requested`, `g_checkpoint_signature` and its flag, and the statics of the
-- setup-phase lock and of the checksum module, which the manager calls.
pub record Statics : Type 0 where
  pub app : AppStats
  pub shutdown_requested : Bool
  pub signature : ℕ
  pub signature_active : Bool
  pub platform : Platform
  pub checksum : ChecksumManager

-- The stages of a run, with the checkpoint_id and the outcome that the last two are given.
pub data Stage : Type 0 where
  init : Stage
  pre_execute : Stage
  execute : Stage
  post_execute : Stage
  checkpoint : ℕ → Stage
  on_checkpoint_result : Bool → Stage
  shutdown : Stage

-- A stage and its status; `none` if control did not come back from it.
pub data Step : Type 0 where
  ran : Stage → Option Status → Step

abbrev failure_text : Stage → List (Event Step)
failure_text Stage.init = logged "Initialization failed" ∷ []
failure_text pre_execute = logged "pre_execute failed" ∷ []
failure_text execute = logged "execute failed" ∷ []
failure_text post_execute = logged "post_execute failed" ∷ []
failure_text (checkpoint id) = logged "checkpoint failed" ∷ []
failure_text (on_checkpoint_result b) = logged "on_checkpoint_result failed" ∷ []
failure_text Stage.shutdown = logged "Shutdown returned non-OK status" ∷ []

-- The failure of a stage, counted, and the test of the threshold.
abbrev count_error : AppStats → Status → AppStats
count_error a status = record a { error_count = u32 (a.error_count + 1); last_error = status }

abbrev pub exceeded : ℕ → ℕ → Bool
exceeded error_threshold error_count = ltb 0 error_threshold && leb error_threshold error_count

-- `rte_appmanager_handle_stage_result`: whether to go on, and the log lines, the newest first.
unfoldable pub handle_stage_result :
    Statics → Stage → ℕ → Status → Bool × Statics × List (Event Step)
handle_stage_result g stage error_threshold status =
    let counted = count_error g.app status in
    if is_ok status
    then (true, g, [])
    else if exceeded error_threshold counted.error_count
    then (
      false,
      record g { app = counted; shutdown_requested = true },
      logged "Error threshold exceeded, shutting down" ∷ failure_text stage,
    )
    else (false, record g { app = counted }, failure_text stage)

-- `RTE_APPMANAGER_CHECKPOINT_SIGNATURE_SEED`
abbrev pub seed : ℕ
seed = 0xffffffffffffffff

-- `rte_appmanager_checkpoint_signature_reset`
unfoldable pub signature_reset : Statics → Statics
signature_reset g = record g { signature = seed; signature_active = true }

-- `rte_appmanager_encode_u64_le`, from byte `i` on.
encode_bytes : ℕ → ℕ → ℕ → List ℕ
encode_bytes zero i value = []
encode_bytes (suc k) i value = (value / 2 ^ (8 * i)) % 256 ∷ encode_bytes k (i + 1) value

unfoldable pub encode_u64_le : ℕ → List ℕ
unfolding encode_bytes
encode_u64_le value = encode_bytes 8 0 value

-- `rte_appmanager_checkpoint_fold_signature`
unfoldable pub fold_signature : ℕ → ℕ
fold_signature signature = bit_xor (signature % 2 ^ 32) ((signature / 2 ^ 32) % 2 ^ 32)

-- `%d` of snprintf, for an int32_t: a magnitude of at most ten digits.
decimal : ℕ → ℕ → List ℕ
decimal zero n = []
decimal (suc k) n =
    let above = decimal k (n / 10) in
    if ltb n 10 then (48 + n) ∷ [] else above ++ (48 + n % 10) ∷ []

decimal_int : ℤ → List ℕ
unfolding decimal
decimal_int (pos n) = decimal 10 n
decimal_int (negsuc n) = 45 ∷ decimal 10 (n + 1)

-- The text of a mark, of which snprintf keeps 127 bytes: the label, or the file and the line.
mark_text : Option (List ℕ) → ℤ → Option (List ℕ) → Option (List ℕ)
unfolding decimal_int
mark_text file line (some label) = some (take 127 label)
mark_text (some file) line none = some (take 127 (file ++ 58 ∷ decimal_int line))
mark_text none line none = none

fold_mark : Statics → Option (List ℕ) → Statics
unfolding encode_u64_le
fold_mark g none = g
fold_mark g (some text) =
    let (mark_hash, m) = crc64 g.checksum (elements text) in
    let (folded, m') = crc64 m (elements (encode_u64_le g.signature ++ encode_u64_le mark_hash)) in
    record g { signature = folded; checksum = m' }

-- `rte_appmanager_checkpoint_mark` on strings without their final NUL.
unfoldable pub checkpoint_mark : Statics → Option (List ℕ) → ℤ → Option (List ℕ) → Statics
unfolding fold_mark mark_text
checkpoint_mark g file line label =
    if g.signature_active then fold_mark g (mark_text file line label) else g

-- `rte_appmanager_request_shutdown`
unfoldable pub request_shutdown : Statics → Statics
request_shutdown g = record g { shutdown_requested = true }

-- What an application calls on these statics in a callback.
pub data AppCall : Type 0 where
  requests_shutdown : AppCall
  marks : Option (List ℕ) → ℤ → Option (List ℕ) → AppCall
  initializes_checksum : Polynomial → AppCall

unfoldable pub apply_call : Statics → AppCall → Statics
unfolding checkpoint_mark request_shutdown
apply_call g requests_shutdown = request_shutdown g
apply_call g (marks file line label) = checkpoint_mark g file line label
apply_call g (initializes_checksum p) =
    let (status, m) = crc64_init g.checksum p in record g { checksum = m }

unfoldable pub apply_calls : Statics → List AppCall → Statics
unfolding apply_call
apply_calls g [] = g
apply_calls g (c ∷ cs) = apply_calls (apply_call g c) cs

-- `rte_appmanager_get_state`, `rte_appmanager_get_stats` with a place that is not NULL, and
-- `rte_appmanager_reset_state`.
abbrev get_state : Statics → AppState
get_state g = g.app.state

abbrev get_stats : Statics → Status × AppStats
get_stats g = (ok, g.app)

abbrev cleared : AppState → AppStats
cleared state = record { state = state; iteration_count = 0; error_count = 0; last_error = ok }

-- The statics at the start of a life cycle, and before one.
unfoldable pub reset_to : AppState → Statics → Statics
unfolding unlock
reset_to state g = record g {
  app = cleared state;
  shutdown_requested = false;
  signature_active = false;
  platform = unlock g.platform;
}

abbrev reset_state : Statics → Statics
reset_state g = reset_to uninitialized g
