-- ===== src/SiteRole/Cycle.antt =====
-- rte_site_role.c: the public calls of the service: the start, the cycle, and what runs between cycles.
pub mod Causes
pub mod Runs
pub mod Contact
pub mod Partition
pub mod Startup
pub mod Resume
mod Tests
use platform_rte.Prelude.{
  ℕ, zero, suc, ◌+◌, ◌-◌, ◌^◌, ◌<◌, List, [], ◌∷◌, ◌++◌, Option, none, some, Bool, true, false, not,
  ◌&&◌, ◌||◌, ltb, leb, ◌==◌, if◌then◌else◌, u32,
}
use platform_rte.Platform.Status.{Status, ok, invalid_param, timeout, is_ok}
use platform_rte.Dual.Types.{DualState, idle, online}
use platform_rte.Dual.Negotiator
use platform_rte.Dual.Negotiator.{Negotiator, Round, same_state}
use platform_rte.SiteRole.Policy.{Reason, standby_sync_due}
use platform_rte.SiteRole.Types.{
  SiteRole, SiteRoleStatus, Config, Local, Sibling, Verdict, Event, sent, Traffic, frame_overhead,
  sibling_reach_default_cycles,
}
use platform_rte.SiteRole.Role.{run_site_role_decision, take_local}
use platform_rte.SiteRole.Sibling.{
  poll_sibling_source, check_sibling_after_decision, startup_role_from_sibling,
}
use platform_rte.SiteRole.Takeover.{refresh_challenge}
use platform_rte.SiteRole.Frames.{send_frame, receive_frame, update_standby_warmth, encode_frame}
use platform_rte.SiteRole.Link.{
  open_link_blocking, init_channel_and_negotiator, close_link, reconnect,
  handle_send_miss_and_link_teardown,
}

-- The storage that `rte_site_role_init` leaves.
unfoldable pub initial : Config → List ℕ → SiteRole
initial c rx = record {
  cfg = record c {
    sibling_reach_cycles =
        if c.sibling_reach_cycles == 0
        then sibling_reach_default_cycles
        else c.sibling_reach_cycles;
  };
  rx_buf = rx;
  link_up = false;
  negotiator = none;
  startup_timestamp_ms = c.startup_timestamp_ms;
  send_miss = 0;
  online = false;
  local_faulted = false;
  local_single_mode = false;
  peer_faulted = false;
  peer_single_mode = 0;
  peer_online_now = false;
  peer_last_rx_cycle = 0;
  peer_snapshot_valid = false;
  peer_snapshot_cycle = 0;
  peer_unresponsive = false;
  lost_peer_while_online = false;
  takeover_confirmed = false;
  takeover_confirm_cycle = 0;
  both_standby_cycles = 0;
  last_reason = Reason.none;
  last_reason_set = true;
  standby_healthy = true;
  standby_last_try_cycle = 0;
  standby_rx_cycle = 0;
  standby_warm = false;
  cycle = 0;
  sibling_mismatch = 0;
  challenge_valid = false;
  challenge = 0;
  challenge_cycle = 0;
  challenge_fail_reported = false;
  sibling = record { known = false; online = false; single_mode = false; ready = false };
  sibling_rx_cycle = 0;
  sibling_verdict = Verdict.unknown;
}

-- `rte_site_role_init` with storage and a configuration, and the bytes of its receive buffer.
unfoldable pub init : Config → List ℕ → Status × Option SiteRole
unfolding initial
init c rx =
    if not c.has_buffers
      || (not c.has_callbacks
          || (leb c.frame_size frame_overhead
              || (ltb 255 c.frame_size
                  || (not c.has_tags || (not c.listen && not c.has_peer_host)))))
    then (invalid_param, none)
    else (ok, some (initial c rx))

-- The `do` loop of `rte_site_role_start`: the rounds of the negotiator by their number; `none` if the
-- fuel runs out.
unfoldable pub settle_loop : (ℕ → Round) → ℕ → ℕ → ℕ → Negotiator → ℕ → ℕ → Option Negotiator
settle_loop rounds poll bound zero n waited i = none
settle_loop rounds poll bound (suc fuel) n waited i =
    let n' = (Negotiator.execute n (rounds i)).0 in
    let undecided = same_state n'.own_state idle in
    let waited' = if undecided then u32 (waited + poll) else waited in
    let rest = settle_loop rounds poll bound fuel n' waited' (i + 1) in
    if undecided && ltb waited' bound then rest else some n'

-- What the calls of a start give.
pub record Start : Type 0 where
  pub now : ℕ
  pub sibling_frame : Option Sibling
  pub attempts : ℕ → Status
  pub channel_status : Status
  pub clock : ℕ
  pub rounds : ℕ → Round

-- The end of `rte_site_role_start`, with the negotiator that the loop leaves.
unfoldable pub settled : SiteRole → Negotiator → Status × SiteRole × List Event
unfolding close_link
settled rs n =
    let rs' = record rs { negotiator = some n } in
    if same_state n.own_state idle
    then (timeout, (close_link rs').0, (close_link rs').1)
    else (ok, record rs' { online = same_state n.own_state online }, [])

-- What follows the loop, if it ends.
unfoldable pub after_loop : SiteRole → Option Negotiator → Option (Status × SiteRole × List Event)
unfolding settled
after_loop rs none = none
after_loop rs (some n) = some (settled rs n)

-- The loop on the negotiator that the service has by now.
unfoldable pub settle : ℕ → SiteRole → Start → Option (Status × SiteRole × List Event)
unfolding settle_loop after_loop
settle fuel rs s = elim rs.negotiator [
  | none ↦ none
  | some n ↦
      after_loop rs (settle_loop s.rounds rs.cfg.link_poll_ms rs.cfg.startup_timeout_ms fuel n 0 0)
]

-- The negotiation of `rte_site_role_start`, with what `init_channel_and_negotiator` gives.
unfoldable pub negotiate : ℕ → Status × SiteRole → Start → Option (Status × SiteRole × List Event)
unfolding close_link settle
negotiate fuel (status, rs) s =
    if is_ok status then settle fuel rs s else some (status, (close_link rs).0, (close_link rs).1)

-- The service before the link is opened: a fresh start, and the role of the sibling.
unfoldable pub prepared : SiteRole → Start → SiteRole × Bool
unfolding poll_sibling_source startup_role_from_sibling
prepared rs s =
    let fresh = record rs {
      standby_healthy = true;
      standby_last_try_cycle = 0;
      standby_rx_cycle = 0;
      standby_warm = false;
      startup_timestamp_ms =
          if rs.startup_timestamp_ms == 0 then s.now else rs.startup_timestamp_ms;
    } in
    startup_role_from_sibling (poll_sibling_source fresh 0 s.sibling_frame)

-- What follows the opening of the link, if it ends: the negotiation, or the end of the start.
unfoldable pub after_opening :
    SiteRole
    → Option (Status × SiteRole × List Event)
    → Option Status
    → Option (Status × SiteRole × List Event)
after_opening rs negotiated none = none
after_opening rs negotiated (some status) =
    if is_ok status then negotiated else some (status, rs, [])

-- `rte_site_role_start` with a service; `none` if the fuel runs out.
unfoldable pub start : ℕ → SiteRole → Start → Option (Status × SiteRole × List Event)
unfolding prepared open_link_blocking init_channel_and_negotiator negotiate after_opening
start fuel rs s =
    let (rs', resume_standby) = prepared rs s in
    let opened = record rs' { link_up = true } in
    after_opening rs'
      (negotiate fuel (init_channel_and_negotiator opened resume_standby s.channel_status s.clock)
        s)
      (open_link_blocking fuel rs' s.attempts)

-- The decision of a cycle and the check of the sibling after it.
unfoldable pub decide_and_check : SiteRole → Local → SiteRole × List Event
unfolding run_site_role_decision check_sibling_after_decision
decide_and_check rs l =
    let (rs', events) = run_site_role_decision rs l in
    let (rs'', more) = check_sibling_after_decision rs' l in (rs'', events ++ more)

-- The beginning of `rte_site_role_execute`.
unfoldable pub begin_cycle : SiteRole → ℕ → Local → Traffic → SiteRole
unfolding take_local poll_sibling_source refresh_challenge
begin_cycle rs cycle l t =
    refresh_challenge
      (poll_sibling_source (take_local (record rs { cycle = cycle }) l) cycle t.sibling_frame) cycle
      t.random

-- The round of the negotiator, which always returns OK.
abbrev pub run_negotiator : SiteRole → Round → SiteRole
run_negotiator rs r = elim rs.negotiator [
  | none ↦ rs
  | some n ↦ record rs { negotiator = some (Negotiator.execute n r).0 }
]

-- The rest of `rte_site_role_execute` on an open link.
unfoldable pub exchange : SiteRole → Local → Traffic → SiteRole × List Event
unfolding send_frame receive_frame update_standby_warmth decide_and_check
    handle_send_miss_and_link_teardown
exchange rs l t =
    let (send_ok, out) = send_frame rs t.encode_state t.send_status in
    let (receive_status, heard) = receive_frame rs t.arrival t.receive_state in
    let (decided, events) = decide_and_check (update_standby_warmth heard) l in
    let (after, last) = handle_send_miss_and_link_teardown decided send_ok receive_status in
    (after, out ++ (events ++ last))

-- `rte_site_role_execute` with a service and local facts.
unfoldable pub execute : SiteRole → ℕ → Local → Traffic → SiteRole × List Event
unfolding begin_cycle reconnect exchange decide_and_check
execute rs cycle l t =
    let ready = begin_cycle rs cycle l t in
    let (status, linked, closing) = reconnect ready t in
    let (alone, alone_events) = decide_and_check linked l in
    if ready.link_up
    then exchange (run_negotiator ready t.round) l t
    else if is_ok status
    then exchange (run_negotiator linked t.round) l t
    else (alone, closing ++ alone_events)

-- The loop of `rte_site_role_service_link`, over what the receive calls give.
unfoldable pub drain_loop :
    ℕ → SiteRole → List (Status × List ℕ) → (List ℕ → Bool → Bool) → SiteRole
unfolding receive_frame
drain_loop zero rs arrivals receive_state = rs
drain_loop (suc left) rs [] receive_state = rs
drain_loop (suc left) rs (arrival ∷ arrivals) receive_state =
    let (status, rs') = receive_frame rs arrival receive_state in
    let rest = drain_loop left rs' arrivals receive_state in if is_ok status then rest else rs'

-- `rte_site_role_service_link`: at most four receives.
unfoldable pub service_link :
    SiteRole → ℕ → List (Status × List ℕ) → (List ℕ → Bool → Bool) → SiteRole
unfolding drain_loop
service_link rs cycle arrivals receive_state =
    if rs.link_up then drain_loop 4 (record rs { cycle = cycle }) arrivals receive_state else rs

-- `rte_site_role_sync_standby` with a service and local facts.
unfoldable pub sync_standby :
    SiteRole → ℕ → Local → (Bool → List ℕ) → Status → SiteRole × List Event
unfolding take_local send_frame
sync_standby rs cycle l encode_state send_status =
    let local = take_local rs l in
    let noticed = record local {
      standby_healthy =
          if local.cfg.standby_sync && (local.online && not local.link_up)
          then false
          else local.standby_healthy;
    } in
    let (send_ok, events) = send_frame noticed encode_state send_status in
    if not (
      standby_sync_due noticed.cfg.standby_sync noticed.online noticed.link_up
        noticed.standby_healthy cycle noticed.standby_last_try_cycle)
    then (noticed, [])
    else if send_ok
    then (record noticed { standby_healthy = true }, events)
    else (record noticed { standby_healthy = false; standby_last_try_cycle = cycle }, events)

unfoldable pub note_lost_contact : SiteRole → SiteRole
note_lost_contact rs = record rs { lost_peer_while_online = true }

-- `rte_site_role_flush_faulted`
unfoldable pub flush_faulted : SiteRole → Bool → (Bool → List ℕ) → List Event
unfolding encode_frame
flush_faulted rs single_mode encode_state =
    if rs.link_up then sent (encode_frame rs.cfg true single_mode 0 false encode_state) ∷ [] else []

unfoldable pub shutdown : SiteRole → SiteRole × List Event
unfolding close_link
shutdown rs = close_link rs

unfoldable pub is_online : Option SiteRole → Bool
is_online none = false
is_online (some rs) = rs.online

-- `rte_site_role_get_status` with a service and a place for the result.
unfoldable pub get_status : SiteRole → SiteRoleStatus
get_status rs = record {
  online = rs.online;
  link_up = rs.link_up;
  peer_answering = leb rs.peer_last_rx_cycle rs.cycle && leb (rs.cycle - rs.peer_last_rx_cycle) 2;
  peer_online_now = rs.peer_online_now;
  peer_unresponsive = rs.peer_unresponsive;
  standby_warm = rs.standby_warm;
  standby_healthy = rs.standby_healthy;
  last_reason = rs.last_reason;
}

unfoldable pub sibling_verdict : Option SiteRole → Verdict
sibling_verdict none = Verdict.unknown
sibling_verdict (some rs) = rs.sibling_verdict

-- `rte_site_role_get_negotiator_states`, once there is a negotiator.
unfoldable pub get_negotiator_states : SiteRole → Option (DualState × DualState)
get_negotiator_states rs = elim rs.negotiator [
  | none ↦ none
  | some n ↦ some (n.own_state, n.peer_state)
]
