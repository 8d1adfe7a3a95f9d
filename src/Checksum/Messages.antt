-- ===== src/Checksum/Messages.antt =====
-- The vital messages of rte_checksum.c. How the machine lays out an integer in memory is a parameter.
pub mod Delivery
use platform_rte.Prelude.{
  ℕ, zero, suc, ◌+◌, ◌-◌, List, [], ◌∷◌, ◌++◌, Option, none, some, Bool, true, false, not, ltb,
  ◌==◌, if◌then◌else◌, length, take, replicate, u8, u32,
}
use platform_rte.Platform.Status.{
  Status, ok, invalid_param, not_initialized, data_corruption, Array, null, elements, count, is_ok,
}
use platform_rte.Checksum.{Stats, ChecksumManager, ChecksumResult, crc64, crc64_verify}

-- `rte_vital_message_t`
pub record VitalMessage : Type 0 where
  pub sequence_number : ℕ
  pub sender_id : ℕ
  pub timestamp_ms : ℕ
  pub payload_size : ℕ
  pub padding : ℕ
  pub reserved : ℕ
  pub payload : List ℕ
  pub crc64_field : ℕ

abbrev pub max_payload : ℕ
max_payload = 248

abbrev count_oversize : ChecksumManager → ChecksumManager
count_oversize m = record m {
  stats = record (m.stats) { payload_oversize = u32 (m.stats.payload_oversize + 1) };
}

abbrev count_sequence_error : ChecksumManager → ChecksumManager
count_sequence_error m = record m {
  stats = record (m.stats) { sequence_errors = u32 (m.stats.sequence_errors + 1) };
}

-- `bytes_of w n` is the memory of an integer `n` of `w` bytes.
module _ (bytes_of : ℕ → ℕ → List ℕ) where
  -- The memory of a message up to its checksum, `sizeof(*msg) - sizeof(msg->crc64)` bytes.
  unfoldable pub image : VitalMessage → List ℕ
  image msg =
      bytes_of 4 msg.sequence_number
      ++ (bytes_of 4 msg.sender_id
          ++ (bytes_of 4 msg.timestamp_ms
              ++ (msg.payload_size ∷ msg.padding ∷ (bytes_of 2 msg.reserved ++ msg.payload))))

  -- The fields and the cleared payload area with the payload, before the checksum.
  unfoldable pub filled : ℕ → ℕ → ℕ → List ℕ → VitalMessage
  filled sender_id sequence clock payload = record {
    sequence_number = sequence;
    sender_id = sender_id;
    timestamp_ms = u32 clock;
    payload_size = u8 (length payload);
    padding = 0;
    reserved = 0;
    payload = payload ++ replicate (max_payload - length payload) 0;
    crc64_field = 0;
  }

  sealed : ChecksumManager → VitalMessage → Status × Option VitalMessage × ChecksumManager
  unfolding image
  sealed m msg =
      let (crc, m') = crc64 m (elements (image msg)) in
      (ok, some (record msg { crc64_field = crc }), m')

  bytes_in : Array ℕ → List ℕ
  bytes_in (null n) = []
  bytes_in (elements bs) = bs

  is_missing : Array ℕ → Bool
  is_missing (null zero) = false
  is_missing (null (suc n)) = true
  is_missing (elements bs) = false

  -- `rte_checksum_vital_message_create` with a message that is not NULL and the clock that it reads,
  -- 0 from a failed timer; the message is `none` where nothing is written.
  unfoldable pub create :
      ChecksumManager → ℕ → ℕ → Array ℕ → ℕ → Status × Option VitalMessage × ChecksumManager
  unfolding sealed filled bytes_in is_missing
  create m sender_id sequence payload clock =
      if ltb max_payload (count payload)
      then (invalid_param, none, count_oversize m)
      else if is_missing payload
      then (invalid_param, none, m)
      else if not m.initialized
      then (not_initialized, none, m)
      else sealed m (filled sender_id sequence clock (bytes_in payload))

  -- The bytes from `msg->payload` on: past the 248 of the payload lies the checksum, which a size
  -- above 248 reads too.
  unfoldable pub payload_bytes : VitalMessage → List ℕ
  payload_bytes msg = take msg.payload_size (msg.payload ++ bytes_of 8 msg.crc64_field)

  -- `rte_checksum_vital_message_verify` with arguments that are not NULL: the payload that is copied
  -- out, `none` where nothing is.
  unfoldable pub verify :
      ChecksumManager → VitalMessage → ℕ → ℕ → Status × Option (List ℕ) × ChecksumManager
  unfolding image payload_bytes
  verify m msg expected_sequence payload_max_size =
      let (status, result, m') = crc64_verify m (elements (image msg)) msg.crc64_field in
      if not (is_ok status)
      then (status, none, m')
      else if not (msg.sequence_number == expected_sequence)
      then (data_corruption, none, count_sequence_error m')
      else if ltb payload_max_size msg.payload_size
      then (invalid_param, none, count_oversize m')
      else (ok, some (payload_bytes msg), m')
