-- ===== src/SiteRole/Frames.antt =====
-- rte_site_role.c: the frames between the two sites, and what a received one tells.
pub mod Exchange
use platform_rte.Prelude.{
  ℕ, ◌-◌, List, [], ◌∷◌, ◌++◌, Bool, true, false, not, ◌&&◌, ◌==◌, if◌then◌else◌, take, drop,
  replicate, get_or, some, none,
}
use platform_rte.Platform.Status.{Status, is_ok}
use platform_rte.Buffer.{Buffer, copy_to, bytes_of, read, le, w32}
use platform_rte.SiteRole.Policy.{standby_data_stale}
use platform_rte.SiteRole.Types.{
  SiteRole, Config, Event, sent, valid_marker, frame_overhead, frame_state_offset,
}

-- `state_size`; the configuration asks for a larger frame.
unfoldable pub state_size : Config → ℕ
state_size cfg = cfg.frame_size - frame_overhead

abbrev flag : Bool → ℕ
flag b = if b then 1 else 0

-- `encode_frame`: the bytes that it leaves in the send buffer, each of which it writes. The application
-- encodes its state over zeros.
unfoldable pub encode_frame : Config → Bool → Bool → ℕ → Bool → (Bool → List ℕ) → List ℕ
unfolding state_size
encode_frame cfg faulted single_mode cycle live encode_state =
    flag faulted ∷ flag single_mode ∷ bytes_of le w32 (if live then cycle else 0)
    ++ (take (state_size cfg) (encode_state live ++ replicate (state_size cfg) 0)
        ++ (if live then valid_marker else 0) ∷ [])

-- `send_frame`: the frame, and whether the dual channel took it.
unfoldable pub send_frame : SiteRole → (Bool → List ℕ) → Status → Bool × List Event
unfolding encode_frame
send_frame rs encode_state status = (
  is_ok status,
  sent (encode_frame rs.cfg rs.local_faulted rs.local_single_mode rs.cycle rs.online encode_state)
      ∷ [],
)

-- What `receive_frame` notes from a decoded frame.
unfoldable pub take_payload : SiteRole → List ℕ → Bool → ℕ → SiteRole
take_payload rs bytes valid peer_cycle =
    let peer_faulted = not (get_or bytes 0 0 == 0) in
    record rs {
      peer_faulted = peer_faulted;
      peer_single_mode = get_or bytes 1 0;
      peer_unresponsive = false;
      takeover_confirmed = false;
      peer_last_rx_cycle = rs.cycle;
      peer_online_now = valid && not peer_faulted;
      peer_snapshot_cycle = if valid then peer_cycle else rs.peer_snapshot_cycle;
      peer_snapshot_valid = if valid then true else rs.peer_snapshot_valid;
      standby_rx_cycle = if valid then rs.cycle else rs.standby_rx_cycle;
    }

-- The part of `receive_frame` behind a successful receive, on the receive buffer.
unfoldable pub decode_frame : SiteRole → (List ℕ → Bool → Bool) → SiteRole
unfolding take_payload state_size
decode_frame rs receive_state =
    let bytes = rs.rx_buf in
    let valid = get_or bytes (rs.cfg.frame_size - 1) 0 == valid_marker in
    let b : Buffer = record {
      memory = some bytes;
      capacity = rs.cfg.frame_size;
      used = rs.cfg.frame_size;
    } in
    elim (read le w32 b 2).1 [
      | none ↦ rs
      | some peer_cycle ↦
          if receive_state (take (state_size rs.cfg) (drop frame_state_offset bytes)) valid
          then take_payload rs bytes valid peer_cycle
          else rs
    ]

-- `receive_frame`: what the dual channel gives, and the application's answer to a state.
unfoldable pub receive_frame :
    SiteRole → Status × List ℕ → (List ℕ → Bool → Bool) → Status × SiteRole
unfolding decode_frame
receive_frame rs (status, bytes) receive_state = (
  status,
  if is_ok status
      then decode_frame (record rs { rx_buf = copy_to rs.rx_buf 0 bytes }) receive_state
      else rs,
)

-- `update_standby_warmth`
unfoldable pub update_standby_warmth : SiteRole → SiteRole
update_standby_warmth rs =
    let stale =
      standby_data_stale rs.cfg.standby_sync rs.online rs.peer_snapshot_valid rs.cycle
        rs.standby_rx_cycle in
    let have = if stale then false else rs.peer_snapshot_valid in
    record rs {
      peer_snapshot_valid = have;
      standby_warm = if rs.cfg.standby_sync && not rs.online then have else false;
    }
