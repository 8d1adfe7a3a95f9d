-- ===== src/Comparator.antt =====
-- rte_cross_comparator.c: the 2-out-of-2 comparison of two channels, or of two buffers. A NULL
-- comparator, which only returns an error, is left out.
pub mod Fate
pub mod AsVoter
mod Tests
use platform_rte.Prelude.{
  ℕ, zero, suc, ◌+◌, List, [], ◌∷◌, ◌++◌, Option, none, some, Bool, true, false, not, ◌&&◌, ◌||◌,
  ltb, ◌==◌, if◌then◌else◌, u32,
}
use platform_rte.Platform.Status.{
  Status, ok, invalid_param, not_initialized, resource_exhausted, hardware_fault, is_ok, is_timeout,
}
use platform_rte.Platform.Safestate.{Level, Event, logged, called, Platform, enter, after_enter}
use platform_rte.Platform.Lifecycle.{check_setup_allowed}
use platform_rte.Channel.{Channel, Transport, receive}
use platform_rte.Voter.Types.{VotingResult, bytes_equal}
use platform_rte.Voter.Vote.{Reply, refused, Voted, returned, when}
use platform_rte.Voter.Receive.{Machine, update, is_healthy}

-- `rte_cross_comparator_config_t`, with the comparison and the callback as for the voter.
pub record ComparatorConfig : Type 0 where
  pub channel_timeout_ms : ℕ
  pub compare : Option (List ℕ → List ℕ → Bool)
  pub log_disagreements : Bool
  pub safestate_level : Level
  pub safestate_reason : ℕ
  pub on_disagreement : Bool

-- `channel_a`, `channel_b` and `registered_count`: the addresses of the channels registered so far.
pub data Registered : Type 0 where
  no_channel : Registered
  only_a : ℕ → Registered
  both : ℕ → ℕ → Registered

-- `rte_cross_comparator_storage_t`
pub record Comparator : Type 0 where
  pub config : ComparatorConfig
  pub registered : Registered
  pub total_disagreements : ℕ
  pub initialized : Bool

-- RTE_CROSS_COMPARATOR_MAX_MESSAGE_SIZE
abbrev pub max_message_size : ℕ
max_message_size = 256

-- `cross_comparator_data_equal`
unfoldable pub data_equal : ComparatorConfig → List ℕ → List ℕ → Bool
data_equal c a b = elim c.compare [ none ↦ bytes_equal a b | some f ↦ f a b ]

-- `rte_cross_comparator_init` on storage and a configuration that are not NULL.
unfoldable pub init :
    Platform → Comparator → ComparatorConfig → Status × Comparator × List (Event VotingResult)
unfolding check_setup_allowed
init p storage config =
    let (allowed, trace) = check_setup_allowed p in
    if is_ok allowed
    then (
      ok,
      record {
        config = config;
        registered = no_channel;
        total_disagreements = 0;
        initialized = true;
      },
      trace,
    )
    else (allowed, storage, trace)

add_channel : Registered → ℕ → Option Registered
add_channel no_channel channel = some (only_a channel)
add_channel (only_a a) channel = some (both a channel)
add_channel (both a b) channel = none

-- `rte_cross_comparator_register_channel`; a channel is its address, `none` for NULL.
unfoldable pub register_channel :
    Platform → Comparator → Option ℕ → Status × Comparator × List (Event VotingResult)
unfolding check_setup_allowed add_channel
register_channel p c none = (invalid_param, c, [])
register_channel p c (some channel) =
    let (allowed, trace) = check_setup_allowed p in
    if not c.initialized
    then (not_initialized, c, [])
    else if not (is_ok allowed)
    then (allowed, c, trace)
    else elim (add_channel c.registered channel) [
      | none ↦ (resource_exhausted, c, trace)
      | some r ↦ (ok, record c { registered = r }, trace)
    ]

-- The reaction of `cross_comparator_finish` to DISAGREED.
unfoldable pub react : Platform → Comparator → Voted Comparator
unfolding enter
react p c =
    let (returns, entry) = enter p c.config.safestate_level c.config.safestate_reason in
    record {
      state = record c { total_disagreements = u32 (c.total_disagreements + 1) };
      result = after_enter returns (record {
        status = hardware_fault;
        result = some VotingResult.disagreed;
        bytes = none;
        size = some 0;
      });
      trace =
          when c.config.log_disagreements (logged "channels disagreed")
          ++ (when c.config.on_disagreement (called VotingResult.disagreed) ++ entry);
    }

-- `cross_comparator_finish`, where all the places for results are given.
unfoldable pub finish : Platform → Comparator → VotingResult → List ℕ → ℕ → Voted Comparator
unfolding react
finish p c VotingResult.agreed bytes data_size =
    returned c
      (record {
        status = ok;
        result = some VotingResult.agreed;
        bytes = some bytes;
        size = some data_size;
      })
      []
finish p c VotingResult.disagreed bytes data_size = react p c
finish p c r bytes data_size =
    returned c (record { status = hardware_fault; result = some r; bytes = none; size = some 0 })
      (when c.config.on_disagreement (called r))

-- `local_result` from two receives.
unfoldable pub judge : ComparatorConfig → Status → Status → List ℕ → List ℕ → VotingResult
judge config st_a st_b a b =
    if is_timeout st_a || is_timeout st_b
    then VotingResult.timeout
    else if not (is_ok st_a) || not (is_ok st_b)
    then VotingResult.insufficient_quorum
    else if data_equal config a b
    then VotingResult.agreed
    else VotingResult.disagreed

module _ {W : Type 0} (t : Transport W) where
  -- The body of `rte_cross_comparator_execute` behind the checks, for two channels. A receive that
  -- fails leaves unspecified bytes, which are not copied out.
  unfoldable pub compare_channels :
      Platform → Comparator → Machine W → ℕ → ℕ → ℕ → Voted Comparator × Machine W
  unfolding finish
  compare_channels p c m data_size a b =
      let timeout_ms = c.config.channel_timeout_ms in
      let (st_a, bytes_a, ch_a, w) = receive t m.world (m.store a) data_size timeout_ms in
      let store = update m.store a ch_a in
      let (st_b, bytes_b, ch_b, w') = receive t w (store b) data_size timeout_ms in
      if not (is_healthy m.store a) || not (is_healthy m.store b)
      then (finish p c VotingResult.insufficient_quorum [] data_size, m)
      else (
        finish p c (judge c.config st_a st_b bytes_a bytes_b) bytes_a data_size,
        record { store = update store b ch_b; world = w' },
      )

  -- The test `registered_count != 2` of `rte_cross_comparator_execute`.
  execute_on : Platform → Comparator → Machine W → ℕ → Registered → Voted Comparator × Machine W
  unfolding compare_channels
  execute_on p c m data_size (both a b) = compare_channels p c m data_size a b
  execute_on p c m data_size _ = (returned c (refused invalid_param) [], m)

  -- `rte_cross_comparator_execute`
  unfoldable pub execute : Platform → Comparator → Machine W → ℕ → Voted Comparator × Machine W
  unfolding execute_on
  execute p c m data_size =
      if data_size == 0
      then (returned c (refused invalid_param) [], m)
      else if not c.initialized
      then (returned c (refused not_initialized) [], m)
      else if ltb max_message_size data_size
      then (returned c (refused resource_exhausted) [], m)
      else execute_on p c m data_size c.registered

-- `rte_cross_comparator_execute_buffers`; `none` is NULL, and a buffer holds `data_size` bytes.
unfoldable pub execute_buffers :
    Platform → Comparator → Option (List ℕ) → Option (List ℕ) → ℕ → Voted Comparator
unfolding finish
execute_buffers p c (some a) (some b) data_size =
    if data_size == 0
    then returned c (refused invalid_param) []
    else if not c.initialized
    then returned c (refused not_initialized) []
    else if ltb max_message_size data_size
    then returned c (refused resource_exhausted) []
    else finish p c
        (if data_equal c.config a b then VotingResult.agreed else VotingResult.disagreed) a
        data_size
execute_buffers p c _ _ data_size = returned c (refused invalid_param) []

count_healthy : (ℕ → Channel) → Registered → ℕ
count_healthy store no_channel = 0
count_healthy store (only_a a) = if is_healthy store a then 1 else 0
count_healthy store (both a b) =
    (if is_healthy store a then 1 else 0) + (if is_healthy store b then 1 else 0)

-- `rte_cross_comparator_get_aggregated_health`: the healthy channels and the disagreements.
unfoldable pub get_aggregated_health : Comparator → (ℕ → Channel) → Status × ℕ × ℕ
unfolding count_healthy
get_aggregated_health c store = (ok, count_healthy store c.registered, c.total_disagreements)

pub destroy : Comparator → Status × Comparator
destroy c = (ok, record c { initialized = false })
