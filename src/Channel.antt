-- ===== src/Channel.antt =====
-- rte_channel.c: one redundant link over a transport that the integrator supplies, with its health.
use Prim.Native.String.{String}
use platform_rte.Prelude.{
  ℕ, ◌+◌, List, [], ◌∷◌, Option, none, some, Bool, true, false, not, ◌||◌, ◌==◌, if◌then◌else◌, u32,
}
use platform_rte.Platform.Status.{Status, ok, invalid_param, not_initialized, is_ok}
use platform_rte.Platform.Safestate.{Event, Platform}
use platform_rte.Platform.Lifecycle.{check_setup_allowed}

-- The `send` and `recv` callbacks of `rte_channel_config_t`: code outside this repository, on a
-- world of its own. A call names the channel handle; `recv` also gives what it left in the buffer.
pub record Transport (W : Type 0) : Type 0 where
  pub send : W → ℕ → List ℕ → Status × W
  pub recv : W → ℕ → ℕ → ℕ → Status × List ℕ × W

-- `rte_channel_config_t`; the flags say whether the callbacks are not NULL.
pub record ChannelConfig : Type 0 where
  pub name : Option String
  pub channel_handle : ℕ
  pub has_send : Bool
  pub has_recv : Bool

-- `rte_channel_health_t`, with uint32_t counters.
pub record Health : Type 0 where
  pub send_count : ℕ
  pub send_error_count : ℕ
  pub receive_count : ℕ
  pub receive_error_count : ℕ
  pub is_healthy : Bool
  pub last_error : Status

-- `rte_channel_storage_t`
pub record Channel : Type 0 where
  pub config : ChannelConfig
  pub health : Health
  pub initialized : Bool

abbrev pub fresh_health : Health
fresh_health = record {
  send_count = 0;
  send_error_count = 0;
  receive_count = 0;
  receive_error_count = 0;
  is_healthy = true;
  last_error = ok;
}

-- `rte_channel_init` on storage and configuration that are not NULL.
unfoldable pub init_channel :
    {E : Type 0} → Platform → Channel → ChannelConfig → Status × Channel × List (Event E)
unfolding check_setup_allowed
init_channel p storage config =
    let (allowed, trace) = check_setup_allowed p in
    if not config.has_send || not config.has_recv
    then (invalid_param, storage, [])
    else if not (is_ok allowed)
    then (allowed, storage, trace)
    else (ok, record { config = config; health = fresh_health; initialized = true }, trace)

pub init :
    {E : Type 0}
    → Platform
    → Option Channel
    → Option ChannelConfig
    → Status × Option Channel × List (Event E)
unfolding init_channel
init p none config = (invalid_param, none, [])
init p (some storage) none = (invalid_param, some storage, [])
init p (some storage) (some config) =
    let (status, channel, trace) = init_channel p storage config in (status, some channel, trace)

-- The health after a send or a receive with this status.
count_send : Health → Status → Health
count_send h status =
    if is_ok status
    then record h { send_count = u32 (h.send_count + 1) }
    else record h { send_error_count = u32 (h.send_error_count + 1); last_error = status }

count_receive : Health → Status → Health
count_receive h status =
    if is_ok status
    then record h { receive_count = u32 (h.receive_count + 1) }
    else record h { receive_error_count = u32 (h.receive_error_count + 1); last_error = status }

module _ {W : Type 0} (t : Transport W) where
  -- `rte_channel_send` with a handle and data that are not NULL; the list holds `data_size` bytes.
  unfoldable pub send : W → Channel → List ℕ → Status × Channel × W
  unfolding count_send
  send w c [] = (invalid_param, c, w)
  send w c (x ∷ xs) =
      let (status, w') = t.send w c.config.channel_handle (x ∷ xs) in
      if c.initialized
      then (status, record c { health = count_send c.health status }, w')
      else (not_initialized, c, w)

  -- `rte_channel_receive` with a handle and a buffer that are not NULL, for `data_size` bytes. The
  -- list is what the call left in the buffer, and means nothing unless the status is OK.
  unfoldable pub receive : W → Channel → ℕ → ℕ → Status × List ℕ × Channel × W
  unfolding count_receive
  receive w c data_size timeout_ms =
      let (status, bytes, w') = t.recv w c.config.channel_handle data_size timeout_ms in
      if data_size == 0
      then (invalid_param, [], c, w)
      else if c.initialized
      then (status, bytes, record c { health = count_receive c.health status }, w')
      else (not_initialized, [], c, w)

-- `rte_channel_get_name`, `_set_healthy` and `_destroy`, with `none` for NULL.
unfoldable pub get_name : Option Channel → Option String
get_name none = none
get_name (some c) = c.config.name

pub set_healthy : Option Channel → Bool → Status × Option Channel
set_healthy none b = (invalid_param, none)
set_healthy (some c) b = (ok, some (record c { health = record (c.health) { is_healthy = b } }))

pub destroy : Option Channel → Status × Option Channel
destroy none = (ok, none)
destroy (some c) = (ok, some (record c { initialized = false }))
