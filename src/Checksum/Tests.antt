-- ===== src/Checksum/Tests.antt =====
-- Checksums and messages at concrete bytes, and the theorems about them there.
use platform_rte.Prelude.{
  ℕ, zero, suc, ◌/◌, ◌<◌, ◌≡◌, ◌≢◌, inl, refl, List, [], ◌∷◌, ◌++◌, none, some, true, arith,
  replicate, All, u8,
}
use platform_rte.Platform.Status.{ok, data_corruption, elements}
use platform_rte.Checksum.{
  ertms, xz, ChecksumManager, zero_stats, table_of, crc_step, crc_loop, crc_of,
}
use platform_rte.Checksum.Tables.{ertms_table, iso_table, xz_table}
use platform_rte.Checksum.Bitwise.{constant_of, bitwise_crc, crc_of_bitwise}
use platform_rte.Checksum.Messages.{VitalMessage, image, create, verify}
use platform_rte.Checksum.Messages.Delivery.{create-verify, verify_detects}

-- The tables of the source differ at the check string "1".
tables_differ : crc_of ertms_table (0x31 ∷ []) ≢ crc_of xz_table (0x31 ∷ [])
unfolding crc_of crc_loop crc_step
tables_differ = ground arith

-- The ISO table has five significant bits: a change of one byte can pass.
iso_collision : crc_of iso_table (0x00 ∷ 0xff ∷ []) ≡ crc_of iso_table (0x00 ∷ 0xc8 ∷ [])
unfolding crc_of crc_loop crc_step
iso_collision = refl

crc_of_bitwise_example :
    crc_of xz_table (1 ∷ 2 ∷ 255 ∷ []) ≡ bitwise_crc (constant_of xz) (1 ∷ 2 ∷ 255 ∷ [])
unfolding table_of
crc_of_bitwise_example =
    crc_of_bitwise xz xz_table (1 ∷ 2 ∷ 255 ∷ []) refl
      (omega arith, (omega arith, (omega arith, tt)))

-- A little-endian machine.
abbrev little_endian : ℕ → ℕ → List ℕ
little_endian zero n = []
little_endian (suc w) n = u8 n ∷ little_endian w (n / 256)

abbrev manager : ChecksumManager
manager = record {
  initialized = true;
  polynomial = ertms;
  table = some ertms_table;
  stats = zero_stats;
}

create-verify_example :
    (msg : VitalMessage) × ((create little_endian manager 7 1 (elements (5 ∷ 6 ∷ [])) 1000).0 ≡ ok)
    × ((create little_endian manager 7 1 (elements (5 ∷ 6 ∷ [])) 1000).1 ≡ some msg)
    × ((verify little_endian manager msg 1 16).0 ≡ ok)
    × ((verify little_endian manager msg 1 16).1 ≡ some (5 ∷ 6 ∷ []))
create-verify_example =
    create-verify little_endian manager manager ertms_table 7 1 1000 16 (5 ∷ 6 ∷ []) refl refl refl
      refl (omega arith) (omega arith)

-- The message from sender 7, and the same with one bit of the sender flipped.
abbrev plain : ℕ → VitalMessage
plain sender = record {
  sequence_number = 1;
  sender_id = sender;
  timestamp_ms = 1000;
  payload_size = 2;
  padding = 0;
  reserved = 0;
  payload = 5 ∷ 6 ∷ replicate 246 0;
  crc64_field = 0;
}

abbrev rest : List ℕ
rest = 0 ∷ 0 ∷ 0 ∷ 0xe8 ∷ 3 ∷ 0 ∷ 0 ∷ 2 ∷ 0 ∷ 0 ∷ 0 ∷ 5 ∷ 6 ∷ replicate 246 0

abbrev start : List ℕ
start = 1 ∷ 0 ∷ 0 ∷ 0 ∷ []

abbrev genuine : VitalMessage
genuine = record (plain 7) { crc64_field = crc_of ertms_table (start ++ 7 ∷ rest) }

abbrev tampered : VitalMessage
tampered = record (plain 6) { crc64_field = crc_of ertms_table (start ++ 7 ∷ rest) }

bytes-replicate : (n : ℕ) → All (λ d. d < 256) (replicate n 0)
bytes-replicate zero = tt
bytes-replicate (suc n) = (omega arith, bytes-replicate n)

bytes-rest : All (λ d. d < 256) rest
bytes-rest = (
  omega arith,
  (
    omega arith,
    (
      omega arith,
      (
        omega arith,
        (
          omega arith,
          (
            omega arith,
            (
              omega arith,
              (
                omega arith,
                (
                  omega arith,
                  (omega arith, (omega arith, (omega arith, (omega arith, bytes-replicate 246)))),
                ),
              ),
            ),
          ),
        ),
      ),
    ),
  ),
)

verify_detects_example :
    ((verify little_endian manager tampered 1 16).0 ≡ data_corruption)
    × ((verify little_endian manager tampered 1 16).1 ≡ none)
unfolding image table_of
verify_detects_example =
    verify_detects little_endian ertms manager ertms_table genuine tampered 1 16 7 6 start rest
      (inl refl) refl refl refl refl refl refl refl
      (omega arith, (omega arith, (omega arith, (omega arith, (omega arith, bytes-rest)))))
      (omega arith, (omega arith, (omega arith, (omega arith, (omega arith, bytes-rest)))))
      (ground arith)
