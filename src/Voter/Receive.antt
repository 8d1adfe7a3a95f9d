-- ===== src/Voter/Receive.antt =====
-- `rte_voter_send` and `rte_voter_receive`: the rounds over the healthy channels (rte_voter.c).
use platform_rte.Prelude.{
  ℕ, ◌+◌, List, [], ◌∷◌, ◌++◌, Option, none, some, Bool, false, not, ◌||◌, ltb, ◌==◌, length,
  if◌then◌else◌,
}
use platform_rte.Platform.Status.{
  Status, ok, invalid_param, not_initialized, resource_exhausted, hardware_fault, timeout, is_ok,
  is_timeout,
}
use platform_rte.Platform.Safestate.{Platform}
use platform_rte.Channel.{Channel, Transport, send, receive}
use platform_rte.Voter.Types.{
  VotingResult, VoterConfig, Voter, channel_count, max_message_size, channel_count_matches_strategy,
  required_quorum, data_equal,
}
use platform_rte.Voter.Grouping.{Response, agreement}
use platform_rte.Voter.Vote.{Voted, refused, returned, finish, as_result}

-- The memory that holds the channels, by address, and the world of their transport.
pub record Machine (W : Type 0) : Type 0 where
  pub store : ℕ → Channel
  pub world : W

abbrev pub update : (ℕ → Channel) → ℕ → Channel → ℕ → Channel
update store a c b = if b == a then c else store b

abbrev pub is_healthy : (ℕ → Channel) → ℕ → Bool
is_healthy store a = (store a).health.is_healthy

-- `voter_count_healthy`
unfoldable pub count_healthy : (ℕ → Channel) → List ℕ → ℕ
count_healthy store [] = 0
count_healthy store (a ∷ as') = (if is_healthy store a then 1 else 0) + count_healthy store as'

-- The variables of a receive round: the responses of the channels so far, in order.
pub record Polled (W : Type 0) : Type 0 where
  pub machine : Machine W
  pub responses : List Response
  pub successful : ℕ
  pub saw_timeout : Bool

-- The variables of a send round.
pub record Sent (W : Type 0) : Type 0 where
  pub machine : Machine W
  pub healthy_count : ℕ
  pub any_failed : Bool
  pub any_timeout : Bool

abbrev pub start : {W : Type 0} → Machine W → Polled W
start m = record { machine = m; responses = []; successful = 0; saw_timeout = false }

-- `local_result` and the data to copy out, after a receive round.
unfoldable pub judge : {W : Type 0} → VoterConfig → Polled W → VotingResult × Option (List ℕ)
judge config pl =
    let (agrees, bytes) = agreement (data_equal config) (required_quorum config) pl.responses in
    if pl.successful == 0
    then ((if pl.saw_timeout then VotingResult.timeout else VotingResult.insufficient_quorum), none)
    else if ltb pl.successful (required_quorum config)
    then (VotingResult.insufficient_quorum, none)
    else (as_result agrees, bytes)

-- The status at the end of `rte_voter_send`.
abbrev pub send_status : {W : Type 0} → Sent W → Status
send_status s =
    if s.healthy_count == 0
    then hardware_fault
    else if s.any_timeout
    then timeout
    else if s.any_failed
    then hardware_fault
    else ok

module _ {W : Type 0} (t : Transport W) where
  -- One round of `voter_receive_from_healthy_channels`.
  unfoldable pub poll_one : ℕ → ℕ → Polled W → ℕ → Polled W
  poll_one data_size timeout_ms pl a =
      let (st, bytes, c, w) =
        receive t pl.machine.world (pl.machine.store a) data_size timeout_ms in
      if is_healthy pl.machine.store a
      then record {
        machine = record { store = update pl.machine.store a c; world = w };
        responses = pl.responses ++ (if is_ok st then some bytes else none) ∷ [];
        successful = if is_ok st then pl.successful + 1 else pl.successful;
        saw_timeout = is_timeout st || pl.saw_timeout;
      }
      else record pl { responses = pl.responses ++ none ∷ [] }

  unfoldable pub poll : ℕ → ℕ → Polled W → List ℕ → Polled W
  poll data_size timeout_ms pl [] = pl
  poll data_size timeout_ms pl (a ∷ as') =
      poll data_size timeout_ms (poll_one data_size timeout_ms pl a) as'

  -- The round of `rte_voter_receive` behind the argument checks.
  unfoldable pub receive_round : Platform → Voter → Machine W → ℕ → Voted Voter × Machine W
  unfolding judge
  receive_round p v m data_size =
      let pl = poll data_size v.config.channel_timeout_ms (start m) v.channels in
      let (result, bytes) = judge v.config pl in
      if ltb (count_healthy m.store v.channels) (required_quorum v.config)
      then (finish p v "channels disagreed" VotingResult.insufficient_quorum none data_size, m)
      else (finish p v "channels disagreed" result bytes data_size, pl.machine)

  -- `rte_voter_receive` with a voter and a buffer that are not NULL.
  unfoldable pub voter_receive : Platform → Voter → Machine W → ℕ → Voted Voter × Machine W
  voter_receive p v m data_size =
      if data_size == 0
      then (returned v (refused invalid_param) [], m)
      else if not v.initialized
      then (returned v (refused not_initialized) [], m)
      else if ltb max_message_size data_size
      then (returned v (refused resource_exhausted) [], m)
      else if not (channel_count_matches_strategy v.config (channel_count v))
      then (returned v (refused invalid_param) [], m)
      else receive_round p v m data_size

  -- One round of the loop of `rte_voter_send`.
  unfoldable pub send_one : List ℕ → Sent W → ℕ → Sent W
  send_one bytes s a =
      let (st, c, w) = send t s.machine.world (s.machine.store a) bytes in
      if is_healthy s.machine.store a
      then record {
        machine = record { store = update s.machine.store a c; world = w };
        healthy_count = s.healthy_count + 1;
        any_failed = not (is_ok st) || s.any_failed;
        any_timeout = is_timeout st || s.any_timeout;
      }
      else s

  unfoldable pub send_from : List ℕ → Sent W → List ℕ → Sent W
  send_from bytes s [] = s
  send_from bytes s (a ∷ as') = send_from bytes (send_one bytes s a) as'

  -- `rte_voter_send` with a voter and data that are not NULL; the list holds `data_size` bytes.
  unfoldable pub voter_send : Voter → Machine W → List ℕ → Status × Machine W
  unfolding send_from send_one
  voter_send v m bytes =
      let s =
        send_from bytes
          (record { machine = m; healthy_count = 0; any_failed = false; any_timeout = false })
          v.channels in
      if length bytes == 0
      then (invalid_param, m)
      else if not v.initialized
      then (not_initialized, m)
      else if ltb max_message_size (length bytes)
      then (resource_exhausted, m)
      else if not (channel_count_matches_strategy v.config (channel_count v))
      then (invalid_param, m)
      else (send_status s, s.machine)
