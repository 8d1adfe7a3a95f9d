-- ===== src/Dual/Negotiator.antt =====
-- rte_dual_negotiator.c: which of two sites is ONLINE, from the state frames that they exchange.
-- The dual channel below it appears as what its calls give: its status and the frames that the
-- receive calls of a round deliver, each with the clock read after it. A read of a failed timer gives
-- 0, as `rte_timer_now` stores it. A NULL negotiator, which only returns an error, is left out.
pub mod SplitBrain
pub mod Decision
mod Tests
use platform_rte.Prelude.{
  ℕ, ◌-◌, List, [], ◌∷◌, Option, none, some, Bool, true, false, not, ◌&&◌, ◌||◌, ltb, leb, ◌==◌,
  if◌then◌else◌,
}
use platform_rte.Platform.Status.{Status, ok, invalid_param}
use platform_rte.Dual.Types.{
  DualState, idle, unknown, online, hot_standby, cold_standby, ChannelStatus, full, standby,
}

-- `rte_dual_state_frame_t`, without the header and the padding.
pub record StateFrame : Type 0 where
  pub state : DualState
  pub channel_degraded : Bool
  pub timestamp_ms : ℕ

-- `rte_dual_negotiator_t`, without the channel. `has_callback` says whether the callback is there.
pub record Negotiator : Type 0 where
  pub own_id : ℕ
  pub peer_id : ℕ
  pub peer_lost_timeout_ms : ℕ
  pub has_callback : Bool
  pub own_startup_timestamp_ms : ℕ
  pub own_channel_degraded : Bool
  pub have_peer_startup_timestamp : Bool
  pub peer_startup_timestamp_ms : ℕ
  pub peer_channel_degraded : Bool
  pub own_state : DualState
  pub peer_state : DualState
  pub have_last_peer_seen : Bool
  pub last_peer_seen_ms : ℕ

-- `rte_dual_negotiator_config_t`; the flag says whether the channel is not NULL.
pub record NegotiatorConfig : Type 0 where
  pub has_channel : Bool
  pub config_own_id : ℕ
  pub config_peer_id : ℕ
  pub config_peer_lost_timeout_ms : ℕ
  pub config_has_callback : Bool
  pub resume_own_state : DualState
  pub resume_own_startup_timestamp_ms : ℕ

-- A call of the callback.
pub record Change : Type 0 where
  pub new_own : DualState
  pub old_own : DualState
  pub new_peer : DualState
  pub old_peer : DualState

-- The `==` of two states.
abbrev pub same_state : DualState → DualState → Bool
same_state idle idle = true
same_state unknown unknown = true
same_state online online = true
same_state hot_standby hot_standby = true
same_state cold_standby cold_standby = true
same_state _ _ = false

-- The storage that `rte_dual_negotiator_init` leaves, with the clock that it reads.
unfoldable pub initialised : NegotiatorConfig → ℕ → Negotiator
initialised c clock = record {
  own_id = c.config_own_id;
  peer_id = c.config_peer_id;
  peer_lost_timeout_ms = c.config_peer_lost_timeout_ms;
  has_callback = c.config_has_callback;
  own_startup_timestamp_ms =
      if c.resume_own_startup_timestamp_ms == 0 then clock else c.resume_own_startup_timestamp_ms;
  own_channel_degraded = false;
  have_peer_startup_timestamp = false;
  peer_startup_timestamp_ms = 0;
  peer_channel_degraded = false;
  own_state = c.resume_own_state;
  peer_state = idle;
  have_last_peer_seen = false;
  last_peer_seen_ms = 0;
}

-- `rte_dual_negotiator_init`; it writes nothing without a channel.
pub init : NegotiatorConfig → ℕ → Status × Option Negotiator
unfolding initialised
init c clock = if c.has_channel then (ok, some (initialised c clock)) else (invalid_param, none)

-- `negotiator_decide_online`
unfoldable pub decide_online : ℕ → ℕ → ℕ → ℕ → Bool
decide_online own_id own_ts peer_id peer_ts =
    if own_ts == peer_ts then ltb own_id peer_id else ltb own_ts peer_ts

-- `negotiator_process_peer_frame`, with the clock that it reads.
unfoldable pub process_peer_frame : Negotiator → StateFrame → ℕ → Negotiator
process_peer_frame n frame clock = record n {
  peer_channel_degraded = frame.channel_degraded;
  peer_startup_timestamp_ms = frame.timestamp_ms;
  have_peer_startup_timestamp = true;
  last_peer_seen_ms = clock;
  have_last_peer_seen = true;
}

-- `peer_contact_recent`, at a clock.
unfoldable pub contact_recent : Negotiator → ℕ → Bool
contact_recent n clock =
    n.have_last_peer_seen
    && (leb n.last_peer_seen_ms clock && ltb (clock - n.last_peer_seen_ms) n.peer_lost_timeout_ms)

-- The two states after the `if` ladder of `negotiator_update_states`.
unfoldable pub next_states : Negotiator → ℕ → DualState × DualState
unfolding contact_recent decide_online
next_states n clock =
    if not n.have_last_peer_seen
    then (n.own_state, idle)
    else if not (contact_recent n clock)
    then ((if same_state n.own_state online then online else unknown), unknown)
    else if same_state n.own_state idle || same_state n.own_state unknown
    then (if decide_online n.own_id n.own_startup_timestamp_ms n.peer_id n.peer_startup_timestamp_ms
        then (online, standby n.own_channel_degraded)
        else (standby n.peer_channel_degraded, online))
    else if same_state n.own_state online
    then (online, standby n.own_channel_degraded)
    else (standby n.peer_channel_degraded, online)

-- `negotiator_update_states`: the negotiator, and the call of the callback if a state changed.
unfoldable pub update_states : Negotiator → ℕ → Negotiator × List Change
unfolding next_states
update_states n clock =
    let (own, peer) = next_states n clock in
    (
      record n { own_state = own; peer_state = peer },
      if (not (same_state own n.own_state) || not (same_state peer n.peer_state)) && n.has_callback
          then record {
            new_own = own;
            old_own = n.own_state;
            new_peer = peer;
            old_peer = n.peer_state;
          }
            ∷ []
          else [],
    )

-- The receive calls of a round: the frames that they deliver, in order, with the clocks.
unfoldable pub process_all : Negotiator → List (StateFrame × ℕ) → Negotiator
unfolding process_peer_frame
process_all n [] = n
process_all n ((frame, clock) ∷ rest) = process_all (process_peer_frame n frame clock) rest

abbrev pub is_full : ChannelStatus → Bool
is_full full = true
is_full _ = false

-- The negotiator once it has read the status of its channel, and the frame that it then sends.
unfoldable pub refresh : Negotiator → ChannelStatus → Negotiator
refresh n status = record n { own_channel_degraded = not (is_full status) }

unfoldable pub beacon : Negotiator → StateFrame
beacon n = record {
  state = n.own_state;
  channel_degraded = n.own_channel_degraded;
  timestamp_ms = n.own_startup_timestamp_ms;
}

-- What happens around a call of `rte_dual_negotiator_execute`: the status of the channel, the frames
-- that arrive, and the clock that the update reads.
pub record Round : Type 0 where
  pub status : ChannelStatus
  pub arrivals : List (StateFrame × ℕ)
  pub clock : ℕ

-- `rte_dual_negotiator_execute`: the negotiator, the frame that it sends, and the callback's calls.
unfoldable pub execute : Negotiator → Round → Negotiator × StateFrame × List Change
unfolding refresh beacon process_all update_states
execute n r =
    let ready = refresh n r.status in
    let (after, changes) = update_states (process_all ready r.arrivals) r.clock in
    (after, beacon ready, changes)
