-- ===== src/Checkpoint.antt =====
-- rte_checkpoint.c: the bounded rendezvous of the channels of a voter, over the channels, the vital
-- messages, the buffer and the watchdogs. The layout of integers in memory, the transport and the clock
-- are parameters. Log texts are left out.
pub mod Rounds
pub mod Confirm
pub mod Managers
pub mod Receipts
pub mod Answers
pub mod Tries
pub mod Fate
pub mod Bounded
mod Tests
use platform_rte.Prelude.{
  ℕ, zero, suc, ◌+◌, ◌-◌, ◌/◌, ◌^◌, List, [], ◌∷◌, ◌++◌, Option, none, some, Bool, true, false, not,
  ◌&&◌, ◌||◌, ltb, leb, ◌==◌, if◌then◌else◌, take, drop, length, replicate, u8, u32, sub64, get_or,
}
use platform_rte.Platform.Status.{Status, ok, invalid_param, timeout, is_ok, elements}
use platform_rte.Platform.Safestate.{
  safe, Event, Platform, enter, after_enter, reason_checkpoint_timeout,
}
use platform_rte.Channel.{Channel, Transport, send, receive}
use platform_rte.Checksum.{ChecksumManager}
use platform_rte.Checksum.Messages.{VitalMessage, image, create, verify}
use platform_rte.Buffer.{Buffer, init, write, set_length, read, le, w32}
use platform_rte.Voter.Types.{Voter, channel_count}
use platform_rte.Voter.Receive.{update}
use platform_rte.Watchdog.{Manager, Reading, now, failed, kick}

-- `rte_checkpoint_config_t`
pub record CheckpointConfig : Type 0 where
  pub checkpoint_id : ℕ
  pub max_delay_ms : ℕ
  pub expected_node_count : ℕ
  pub watchdog : Option ℕ

-- The macros of the file.
abbrev pub sender_id : ℕ
sender_id = 0xC4EC0001

abbrev pub retry_round_ms : ℕ
retry_round_ms = 250

abbrev pub min_rounds_per_budget : ℕ
min_rounds_per_budget = 3

abbrev pub max_rounds : ℕ
max_rounds = 64

-- The memory of the channels, the statics of the checksum module and of the watchdogs, and the world.
pub record Site (W : Type 0) : Type 0 where
  pub store : ℕ → Channel
  pub checksum : ChecksumManager
  pub watchdogs : Manager
  pub world : W

-- `remaining_budget_ms`
unfoldable pub remaining_budget_ms : ℕ → ℕ → ℕ → ℕ
remaining_budget_ms start_ms now_ms max_delay_ms =
    let elapsed_ms = sub64 now_ms start_ms in
    if leb max_delay_ms elapsed_ms then 0 else max_delay_ms - u32 elapsed_ms

-- The round length, from the budget.
unfoldable pub round_cap : ℕ → ℕ
round_cap max_delay_ms =
    let budget_based = max_delay_ms / min_rounds_per_budget in
    if ltb 0 budget_based && ltb budget_based retry_round_ms then budget_based else retry_round_ms

-- What `rte_timer_now` leaves in a variable that holds a time.
abbrev pub reading_or : ℕ → Reading → ℕ
reading_or old (now t) = t
reading_or old (failed e) = old

-- `sizeof(rte_vital_message_t)`, and the message in so many bytes; `value_of` reads an integer.
abbrev pub message_size : ℕ
message_size = 272

unfoldable pub message_in : (List ℕ → ℕ) → List ℕ → VitalMessage
message_in value_of bs = record {
  sequence_number = value_of (take 4 bs);
  sender_id = value_of (take 4 (drop 4 bs));
  timestamp_ms = value_of (take 4 (drop 8 bs));
  payload_size = get_or bs 12 0;
  padding = get_or bs 13 0;
  reserved = value_of (take 2 (drop 14 bs));
  payload = take 248 (drop 16 bs);
  crc64_field = value_of (take 8 (drop 264 bs));
}

-- The storage of a buffer, as an array of that many bytes.
abbrev pub storage : Buffer → List ℕ
storage b = elim b.memory [ none ↦ [] | some memory ↦ memory ]

abbrev unset : Buffer
unset = record { memory = none; capacity = 0; used = 0 }

-- The payload of a reply as a checkpoint_id.
unfoldable pub decoded : List ℕ → Option ℕ
decoded payload =
    let (status, b) = init unset (some payload) 4 in
    let (status', b') = set_length b 4 in if is_ok status then (read le w32 b' 0).1 else none

abbrev equals : Option ℕ → ℕ → Bool
equals none n = false
equals (some d) n = d == n

unfoldable pub confirms_payload :
    ℕ → ℕ → Status × Option (List ℕ) × ChecksumManager → Bool × ChecksumManager
unfolding decoded
confirms_payload size checkpoint_id (status, none, m) = (false, m)
confirms_payload size checkpoint_id (status, some payload, m) =
    (is_ok status && size == 4 && equals (decoded payload) checkpoint_id, m)

-- `bytes_of w n` is the memory of an integer of `w` bytes.
module _ (bytes_of : ℕ → ℕ → List ℕ) where
  -- The memory of a whole message.
  unfoldable pub memory_of : VitalMessage → List ℕ
  memory_of msg = image bytes_of msg ++ bytes_of 8 msg.crc64_field

  -- `build_arrival_message`, with the clock that the creation reads; `none` where nothing is written.
  unfoldable pub build_arrival_message :
      ChecksumManager → ℕ → ℕ → Status × Option VitalMessage × ChecksumManager
  build_arrival_message m checkpoint_id clock =
      let (status, b) = init unset (some (replicate 4 0)) 4 in
      let (status', b') = write le w32 b checkpoint_id in
      if not (is_ok status)
      then (status, none, m)
      else if not (is_ok status')
      then (status', none, m)
      else create bytes_of m sender_id checkpoint_id (elements (storage b')) clock

  -- `reply_confirms_checkpoint`
  unfoldable pub reply_confirms_checkpoint :
      ChecksumManager → VitalMessage → ℕ → Bool × ChecksumManager
  unfolding confirms_payload
  reply_confirms_checkpoint m reply checkpoint_id =
      confirms_payload reply.payload_size checkpoint_id (verify bytes_of m reply checkpoint_id 4)
