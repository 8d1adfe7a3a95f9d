-- ===== src/SiteRole/Link.antt =====
-- rte_site_role.c: opening, closing and giving up the link between the sites.
use platform_rte.Prelude.{
  ℕ, zero, suc, ◌+◌, List, [], ◌∷◌, Option, none, some, Bool, true, false, not, ◌&&◌, ◌||◌, ltb,
  leb, ◌==◌, if◌then◌else◌, u32,
}
use platform_rte.Platform.Status.{Status, ok, timeout, is_ok, is_timeout}
use platform_rte.Dual.Types.{idle, online, hot_standby}
use platform_rte.Dual.Negotiator.{NegotiatorConfig, initialised}
use platform_rte.SiteRole.Types.{SiteRole, Config, Event, closed, Traffic}

-- `open_link_once`, with the status of the link.
unfoldable pub open_link_once : SiteRole → Status → Status × SiteRole
open_link_once rs status = (status, if is_ok status then record rs { link_up = true } else rs)

-- The `while` of `open_link_blocking`: the status of each attempt, by its number; `none` if the fuel
-- runs out. The attempts that fail leave the link closed.
unfoldable pub connect_loop : (ℕ → Status) → ℕ → ℕ → ℕ → ℕ → ℕ → Option Status
connect_loop attempts retry bound zero waited i = none
connect_loop attempts retry bound (suc fuel) waited i =
    let rest = connect_loop attempts retry bound fuel (u32 (waited + retry)) (i + 1) in
    if ltb waited bound then (if is_ok (attempts i) then some ok else rest) else some timeout

-- `open_link_blocking`, with fuel for the connecting side.
unfoldable pub open_with : ℕ → Config → (ℕ → Status) → Option Status
unfolding connect_loop
open_with fuel cfg attempts =
    if cfg.listen
    then some (attempts 0)
    else connect_loop attempts cfg.connect_retry_ms cfg.startup_timeout_ms fuel 0 0

unfoldable pub open_link_blocking : ℕ → SiteRole → (ℕ → Status) → Option Status
unfolding open_with
open_link_blocking fuel rs attempts = open_with fuel rs.cfg attempts

-- The configuration of the negotiator in `init_channel_and_negotiator`.
unfoldable pub negotiator_config : SiteRole → Bool → NegotiatorConfig
negotiator_config rs resume_standby = record {
  has_channel = true;
  config_own_id = rs.cfg.own_id;
  config_peer_id = rs.cfg.peer_id;
  config_peer_lost_timeout_ms = rs.cfg.peer_lost_timeout_ms;
  config_has_callback = true;
  resume_own_state = if rs.online then online else if resume_standby then hot_standby else idle;
  resume_own_startup_timestamp_ms = rs.startup_timestamp_ms;
}

-- The service once the dual channel and the negotiator are initialised, with the clock of the latter.
unfoldable pub with_negotiator : SiteRole → Bool → ℕ → SiteRole
unfolding negotiator_config
with_negotiator rs resume_standby clock =
    let n = initialised (negotiator_config rs resume_standby) clock in
    record rs {
      send_miss = 0;
      negotiator = some n;
      startup_timestamp_ms =
          if rs.startup_timestamp_ms == 0
          then n.own_startup_timestamp_ms
          else rs.startup_timestamp_ms;
    }

-- `init_channel_and_negotiator`, with the status of the dual channel. The negotiator has a channel, so
-- that its own initialisation succeeds.
unfoldable pub init_channel_and_negotiator : SiteRole → Bool → Status → ℕ → Status × SiteRole
unfolding with_negotiator
init_channel_and_negotiator rs resume_standby channel_status clock =
    if is_ok channel_status
    then (ok, with_negotiator rs resume_standby clock)
    else (channel_status, rs)

unfoldable pub close_link : SiteRole → SiteRole × List Event
close_link rs = if rs.link_up then (record rs { link_up = false }, closed ∷ []) else (rs, [])

-- `reconnect`
unfoldable pub reconnect : SiteRole → Traffic → Status × SiteRole × List Event
unfolding open_link_once init_channel_and_negotiator close_link
reconnect rs t =
    let (opened, rs') = open_link_once rs t.open_status in
    let (status, rs'') = init_channel_and_negotiator rs' false t.channel_status t.clock in
    if not (is_ok opened)
    then (opened, rs', [])
    else if is_ok status
    then (ok, rs'', [])
    else (status, (close_link rs'').0, (close_link rs'').1)

-- `send_miss` after a send.
unfoldable pub count_miss : ℕ → Bool → ℕ
count_miss misses send_ok = if send_ok then 0 else if ltb misses 255 then misses + 1 else misses

-- Whether the link appears dead: enough sends were missed, or the receive failed other than by TIMEOUT.
unfoldable pub appears_dead : ℕ → ℕ → Status → Bool
appears_dead threshold misses receive_status =
    leb threshold misses || (not (is_ok receive_status) && not (is_timeout receive_status))

-- `handle_send_miss_and_link_teardown`
unfoldable pub handle_send_miss_and_link_teardown : SiteRole → Bool → Status → SiteRole × List Event
unfolding count_miss appears_dead close_link
handle_send_miss_and_link_teardown rs send_ok receive_status =
    let misses = count_miss rs.send_miss send_ok in
    let silent = record rs {
      lost_peer_while_online = rs.online || rs.lost_peer_while_online;
      peer_unresponsive = (not rs.online && not rs.local_faulted) || rs.peer_unresponsive;
      send_miss = 0;
    } in
    if appears_dead rs.cfg.send_miss_threshold misses receive_status
    then close_link silent
    else (record rs { send_miss = misses }, [])
