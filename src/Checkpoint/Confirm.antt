-- ===== src/Checkpoint/Confirm.antt =====
-- The arrival messages: which checkpoint a reply confirms.
use platform_rte.Prelude.{
  ℕ, ◌^◌, ◌<◌, ◌≡◌, ◌≢◌, refl, sym, ap, subst, ◌∙◌, List, Option, none, some, true, false, ◌==◌,
  length, arith, Bool-cases, Option-cases, inl, inr, ==→eq, u8, ==_self,
}
use platform_rte.Platform.Status.{Status, ok, elements}
use platform_rte.Checksum.{ChecksumManager}
use platform_rte.Checksum.Messages.{VitalMessage, create, verify}
use platform_rte.Buffer.{
  init, write, append_bytes, le, w32, read, set_length, bytes_of, value_of, peek_bytes,
}
use platform_rte.Buffer.Integers.{value_of-bytes_of, length-bytes_of}
use platform_rte.Checksum.Messages.Delivery.{create-verify}
use platform_rte.Checkpoint.{
  build_arrival_message, reply_confirms_checkpoint, decoded, confirms_payload, sender_id,
}

module _ (layout : ℕ → ℕ → List ℕ) where
  -- Building an arrival message is creating a message with that payload.
  pub build_arrival_message_lem :
      (m : ChecksumManager) (id clock : ℕ)
      → build_arrival_message layout m id clock
        ≡ create layout m sender_id id (elements (bytes_of le w32 id)) clock
  unfolding build_arrival_message init write append_bytes bytes_of
  build_arrival_message_lem m id clock = refl

  pub build_arrival_message_ok :
      (m : ChecksumManager) (id clock : ℕ)
      → m.initialized ≡ true
      → ((build_arrival_message layout m id clock).0 ≡ ok)
        × ((msg : VitalMessage) × ((build_arrival_message layout m id clock).1 ≡ some msg))
  unfolding build_arrival_message init write append_bytes create bytes_of
  build_arrival_message_ok m id clock i =
      elim (Option-cases (build_arrival_message layout m id clock).1) [
        | inl e ↦ absurd (ground arith)
        | inr (msg, e) ↦ (ground arith, (msg, e))
      ]

  -- What the checks of a reply need of a message.
  created_fields :
      (m : ChecksumManager) (sender id clock : ℕ) (bs : List ℕ) (msg : VitalMessage)
      → (create layout m sender id (elements bs) clock).1 ≡ some msg
      → (msg.sequence_number ≡ id) × (msg.payload_size ≡ u8 (length bs))
  unfolding create
  created_fields m sender id clock bs msg e = (ground arith, ground arith)

  verify_other :
      (m : ChecksumManager) (msg : VitalMessage) (sequence room : ℕ)
      → msg.sequence_number ≢ sequence
      → (verify layout m msg sequence room).1 ≡ none
  unfolding verify
  verify_other m msg sequence room n = ground arith

  other_refused :
      (size id : ℕ) (o : Status × Option (List ℕ) × ChecksumManager)
      → o.1 ≡ none
      → (confirms_payload size id o).0 ≡ false
  unfolding confirms_payload
  other_refused size id (status, none, m) e = refl
  other_refused size id (status, some p, m) e = ground arith

  decoded_id : (id : ℕ) → id < 2 ^ 32 → decoded (bytes_of le w32 id) ≡ some id
  unfolding decoded init set_length read peek_bytes bytes_of value_of
  decoded_id id h = ap some (value_of-bytes_of le w32 id (omega arith))

  same_confirmed :
      (id : ℕ) (o : Status × Option (List ℕ) × ChecksumManager)
      → id < 2 ^ 32
      → o.0 ≡ ok
      → o.1 ≡ some (bytes_of le w32 id)
      → (confirms_payload 4 id o).0 ≡ true
  unfolding confirms_payload
  same_confirmed id (status, none, m) h e f = ground arith
  same_confirmed id (status, some p, m) h e f =
      let d : decoded p ≡ some id =
        ap (λ (o : Option (List ℕ)). elim o [ none ↦ none | some q ↦ decoded q ]) f
        ∙ decoded_id id h in
      rw (e, d) (==_self id)

  confirms_same :
      (m : ChecksumManager) (msg : VitalMessage) (id : ℕ)
      → msg.payload_size ≡ 4
      → id < 2 ^ 32
      → (verify layout m msg id 4).0 ≡ ok
      → (verify layout m msg id 4).1 ≡ some (bytes_of le w32 id)
      → (reply_confirms_checkpoint layout m msg id).0 ≡ true
  unfolding reply_confirms_checkpoint
  confirms_same m msg id z small v0 v1 =
      subst (λ (n : ℕ). (confirms_payload n id (verify layout m msg id 4)).0 ≡ true) (sym z)
        (same_confirmed id (verify layout m msg id 4) small v0 v1)

  -- The arrival message that one site builds for a checkpoint is built, and another site, with the same table
  -- of checksums, takes it as a confirmation of a checkpoint exactly if that is the same one.
  pub arrival_confirms :
      (m m' : ChecksumManager) (table : List ℕ) (id other clock : ℕ)
      → m.initialized ≡ true
      → m.table ≡ some table
      → m'.initialized ≡ true
      → m'.table ≡ some table
      → id < 2 ^ 32
      → (msg : VitalMessage) × ((build_arrival_message layout m id clock).0 ≡ ok)
        × ((build_arrival_message layout m id clock).1 ≡ some msg)
        × ((reply_confirms_checkpoint layout m' msg other).0 ≡ (id == other))
  unfolding reply_confirms_checkpoint
  arrival_confirms m m' table id other clock i t i' t' small =
      let bytes = bytes_of le w32 id in
      let len : length bytes ≡ 4 = length-bytes_of le w32 id in
      let built = build_arrival_message_lem m id clock in
      let (msg, c0, c1, v0, v1) =
        create-verify layout m m' table sender_id id clock 4 bytes i t i' t' (omega (arith, len))
          (omega (arith, len)) in
      let (n, z) = created_fields m sender_id id clock bytes msg c1 in
      (
        msg,
        ap (λ (o : Status × Option VitalMessage × ChecksumManager). o.0) built ∙ c0,
        ap (λ (o : Status × Option VitalMessage × ChecksumManager). o.1) built ∙ c1,
        elim (Bool-cases (id == other)) [
          | inl e ↦ rw e (
              subst (λ (x : ℕ). (reply_confirms_checkpoint layout m' msg x).0 ≡ true)
                (==→eq id other e) (confirms_same m' msg id (z ∙ ap u8 len) small v0 v1))
          | inr e ↦ rw e (
              other_refused msg.payload_size other (verify layout m' msg other 4)
                (verify_other m' msg other 4 (λ q. ground (arith, n, q, e))))
        ],
      )
