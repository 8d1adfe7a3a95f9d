-- ===== src/Checkpoint/Managers.antt =====
-- The checksum manager through a rendezvous: only its statistics change, and no check depends on them.
use platform_rte.Prelude.{ℕ, ◌≡◌, refl, List, Option, none, some, arith}
use platform_rte.Platform.Status.{Status}
use platform_rte.Checksum.{ChecksumManager, crc64, crc64_verify}
use platform_rte.Checksum.Messages.{VitalMessage, create, verify}
use platform_rte.Checkpoint.{build_arrival_message, reply_confirms_checkpoint, confirms_payload}

-- The managers differ at most in their statistics.
abbrev pub Alike : ChecksumManager → ChecksumManager → Type 0
Alike m m' =
    (m'.initialized ≡ m.initialized) × (m'.polynomial ≡ m.polynomial) × (m'.table ≡ m.table)

module _ (bytes_of : ℕ → ℕ → List ℕ) where
  verify-Alike :
      (m m' : ChecksumManager) (msg : VitalMessage) (sequence max : ℕ)
      → Alike m m'
      → ((verify bytes_of m' msg sequence max).0 ≡ (verify bytes_of m msg sequence max).0)
        × ((verify bytes_of m' msg sequence max).1 ≡ (verify bytes_of m msg sequence max).1)
        × Alike m (verify bytes_of m' msg sequence max).2
  unfolding verify crc64_verify crc64
  verify-Alike m m' msg sequence max h = (ground arith, ground arith, ground arith)

  confirms_payload-Alike :
      (m : ChecksumManager) (size id : ℕ) (o o' : Status × Option (List ℕ) × ChecksumManager)
      → o'.0 ≡ o.0
      → o'.1 ≡ o.1
      → Alike m o'.2
      → ((confirms_payload size id o').0 ≡ (confirms_payload size id o).0)
        × Alike m (confirms_payload size id o').1
  unfolding confirms_payload
  confirms_payload-Alike m size id (status, none, k) (status', none, k') e p h = (refl, h)
  confirms_payload-Alike m size id (status, none, k) (status', some q, k') e p h = ground arith
  confirms_payload-Alike m size id (status, some r, k) (status', none, k') e p h = ground arith
  confirms_payload-Alike m size id (status, some r, k) (status', some q, k') e p h =
      (ground arith, h)

  -- A reply that one manager accepts is accepted by the other.
  pub reply_confirms_checkpoint-Alike :
      (m m' : ChecksumManager) (reply : VitalMessage) (id : ℕ)
      → Alike m m'
      → ((reply_confirms_checkpoint bytes_of m' reply id).0
          ≡ (reply_confirms_checkpoint bytes_of m reply id).0)
        × Alike m (reply_confirms_checkpoint bytes_of m' reply id).1
  unfolding reply_confirms_checkpoint
  reply_confirms_checkpoint-Alike m m' reply id h =
      let (e, p, k) = verify-Alike m m' reply id 4 h in
      confirms_payload-Alike m reply.payload_size id (verify bytes_of m reply id 4)
        (verify bytes_of m' reply id 4) e p k

  pub build_arrival_message-Alike :
      (m : ChecksumManager) (id clock : ℕ) → Alike m (build_arrival_message bytes_of m id clock).2
  unfolding build_arrival_message create crc64
  build_arrival_message-Alike m id clock = ground arith
