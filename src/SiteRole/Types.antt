-- ===== src/SiteRole/Types.antt =====
-- The types of include/rte/redundancy/site_role/rte_site_role.h.
-- A callback that the configuration leaves out is a flag; the MAC verifier is a function. The tags,
-- names and buffers of the configuration are only checked for NULL. Ports and hosts go to the link
-- alone and are left out, as are the dual channel and the link below the service: what their calls
-- give stands in a `Traffic`.
use platform_rte.Prelude.{ℕ, List, Option, Bool}
use platform_rte.Platform.Status.{Status}
use platform_rte.Dual.Negotiator.{Negotiator, Round}
use platform_rte.SiteRole.Policy.{Reason}

abbrev pub frame_overhead : ℕ
frame_overhead = 7

abbrev pub frame_state_offset : ℕ
frame_state_offset = 6

abbrev pub valid_marker : ℕ
valid_marker = 0xA5

abbrev pub token_msg_len : ℕ
token_msg_len = 16

abbrev pub token_len : ℕ
token_len = 24

abbrev pub token_version : ℕ
token_version = 1

abbrev pub challenge_lifetime_default_cycles : ℕ
challenge_lifetime_default_cycles = 240

abbrev pub sibling_mismatch_limit : ℕ
sibling_mismatch_limit = 3

abbrev pub sibling_reach_default_cycles : ℕ
sibling_reach_default_cycles = 3

-- `rte_site_role_local_t`
pub record Local : Type 0 where
  pub faulted : Bool
  pub single_mode : Bool
  pub own_ready : Bool
  pub sibling_online : Bool
  pub sibling_ready : Bool
  pub sibling_reachable : Bool

pub data ChangeKind : Type 0 where
  promoted : ChangeKind
  demoted : ChangeKind
  renegotiated : ChangeKind

-- `rte_site_role_change_t`
pub record Change : Type 0 where
  pub kind : ChangeKind
  pub reason : Reason
  pub online : Bool
  pub apply_state : Bool
  pub snapshot_valid : Bool
  pub snapshot_cycle : ℕ

pub data TokenResult : Type 0 where
  accepted : TokenResult
  ignored_online : TokenResult
  not_configured : TokenResult
  no_challenge : TokenResult
  bad_format : TokenResult
  bad_mac : TokenResult
  stale_challenge : TokenResult

-- `rte_site_role_sibling_t`
pub record Sibling : Type 0 where
  pub known : Bool
  pub online : Bool
  pub single_mode : Bool
  pub ready : Bool

pub data Verdict : Type 0 where
  unknown : Verdict
  agree : Verdict
  pending : Verdict
  fault : Verdict

-- `rte_site_role_config_t`
pub record Config : Type 0 where
  pub own_id : ℕ
  pub peer_id : ℕ
  pub is_west : Bool
  pub listen : Bool
  pub has_peer_host : Bool
  pub peer_lost_timeout_ms : ℕ
  pub startup_timeout_ms : ℕ
  pub link_poll_ms : ℕ
  pub connect_retry_ms : ℕ
  pub send_miss_threshold : ℕ
  pub standby_sync : Bool
  pub startup_timestamp_ms : ℕ
  pub frame_size : ℕ
  pub has_buffers : Bool
  pub has_tags : Bool
  pub has_callbacks : Bool
  pub verify_mac : Option (List ℕ → List ℕ → Bool)
  pub channel_id : ℕ
  pub challenge_lifetime_cycles : ℕ
  pub has_sibling_source : Bool
  pub sibling_reach_cycles : ℕ

-- `rte_site_role_t`; `link_up` says whether the link handle is not NULL, and `rx_buf` holds the bytes
-- of the receive buffer. `negotiator` is `none` until it is initialised.
pub record SiteRole : Type 0 where
  pub cfg : Config
  pub rx_buf : List ℕ
  pub link_up : Bool
  pub negotiator : Option Negotiator
  pub startup_timestamp_ms : ℕ
  pub send_miss : ℕ
  pub online : Bool
  pub local_faulted : Bool
  pub local_single_mode : Bool
  pub peer_faulted : Bool
  pub peer_single_mode : ℕ
  pub peer_online_now : Bool
  pub peer_last_rx_cycle : ℕ
  pub peer_snapshot_valid : Bool
  pub peer_snapshot_cycle : ℕ
  pub peer_unresponsive : Bool
  pub lost_peer_while_online : Bool
  pub takeover_confirmed : Bool
  pub takeover_confirm_cycle : ℕ
  pub both_standby_cycles : ℕ
  pub last_reason : Reason
  pub last_reason_set : Bool
  pub standby_healthy : Bool
  pub standby_last_try_cycle : ℕ
  pub standby_rx_cycle : ℕ
  pub standby_warm : Bool
  pub cycle : ℕ
  pub sibling_mismatch : ℕ
  pub challenge_valid : Bool
  pub challenge : ℕ
  pub challenge_cycle : ℕ
  pub challenge_fail_reported : Bool
  pub sibling : Sibling
  pub sibling_rx_cycle : ℕ
  pub sibling_verdict : Verdict

-- `rte_site_role_status_t`
pub record SiteRoleStatus : Type 0 where
  pub online : Bool
  pub link_up : Bool
  pub peer_answering : Bool
  pub peer_online_now : Bool
  pub peer_unresponsive : Bool
  pub standby_warm : Bool
  pub standby_healthy : Bool
  pub last_reason : Reason

-- What the service does outwards: it tells the application of a change, hands a frame to the dual
-- channel, or closes the link; of its log, the event of an alarm or of a promotion that is held back,
-- and that of an A/B mismatch. The other log lines and the trace are left out.
pub data Event : Type 0 where
  changed : Change → Event
  sent : List ℕ → Event
  closed : Event
  noted : Reason → Event
  mismatched : Event

-- What the calls of one cycle give: the sibling source (`none` if it has no new frame), four random
-- bytes (`none` if the draw fails), opening the link and its dual channel, the clock, the round of the
-- negotiator, the state that the application encodes for a live or a dead frame, the send, the receive
-- with the bytes that it delivers, and whether the application takes a state.
pub record Traffic : Type 0 where
  pub sibling_frame : Option Sibling
  pub random : Option (List ℕ)
  pub open_status : Status
  pub channel_status : Status
  pub clock : ℕ
  pub round : Round
  pub encode_state : Bool → List ℕ
  pub send_status : Status
  pub arrival : Status × List ℕ
  pub receive_state : List ℕ → Bool → Bool
