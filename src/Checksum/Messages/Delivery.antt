-- ===== src/Checksum/Messages/Delivery.antt =====
-- What a receiver of vital messages gets.
use mathlib.Core.List.{append_assoc}
use platform_rte.Prelude.{
  ℕ, ◌-◌, ◌≤◌, ◌<◌, ◌≡◌, ◌≢◌, ◌⊎◌, ◌∙◌, refl, sym, ap, List, [], ◌∷◌, ◌++◌, none, some, true, arith,
  length, take, replicate, All,
}
use platform_rte.Platform.Status.{ok, data_corruption, elements}
use platform_rte.Checksum.{
  Polynomial, ertms, xz, ChecksumManager, table_of, crc_of, crc64, crc64_verify,
}
use platform_rte.Checksum.Detection.{one_byte_detected}
use platform_rte.Checksum.Messages.{VitalMessage, image, filled, create, verify, payload_bytes}

take-append : (xs ys : List ℕ) → take (length xs) (xs ++ ys) ≡ xs
take-append [] ys = refl
take-append (x ∷ xs) ys = ap (λ (t : List ℕ). x ∷ t) (take-append xs ys)

crc64_ready :
    (m : ChecksumManager) (table ds : List ℕ)
    → m.initialized ≡ true
    → m.table ≡ some table
    → (crc64 m (elements ds)).0 ≡ crc_of table ds
unfolding crc64
crc64_ready m table ds i t = ground (arith, i, t)

crc64_verify_ready :
    (m : ChecksumManager) (table ds : List ℕ) (c : ℕ)
    → m.initialized ≡ true
    → m.table ≡ some table
    → ((crc_of table ds ≡ c) × ((crc64_verify m (elements ds) c).0 ≡ ok))
      ⊎ ((crc_of table ds ≢ c) × ((crc64_verify m (elements ds) c).0 ≡ data_corruption))
unfolding crc64_verify
crc64_verify_ready m table ds c i t = ground (arith, i, crc64_ready m table ds i t)

module _ (bytes_of : ℕ → ℕ → List ℕ) where
  -- The message that is sent.
  sent : List ℕ → ℕ → ℕ → ℕ → List ℕ → VitalMessage
  sent table sender sequence clock bs = record (filled bytes_of sender sequence clock bs) {
    crc64_field = crc_of table (image bytes_of (filled bytes_of sender sequence clock bs));
  }

  create_lem :
      (m : ChecksumManager) (table : List ℕ) (sender sequence clock : ℕ) (bs : List ℕ)
      → m.initialized ≡ true
      → m.table ≡ some table
      → length bs ≤ 248
      → ((create bytes_of m sender sequence (elements bs) clock).0 ≡ ok)
        × ((create bytes_of m sender sequence (elements bs) clock).1
            ≡ some (sent table sender sequence clock bs))
  unfolding create sent
  create_lem m table sender sequence clock bs i t l = ground (
    arith,
    i,
    crc64_ready m table (image bytes_of (filled bytes_of sender sequence clock bs)) i t,
  )

  verify_lem :
      (m : ChecksumManager) (table : List ℕ) (msg : VitalMessage) (sequence room : ℕ)
      → m.initialized ≡ true
      → m.table ≡ some table
      → crc_of table (image bytes_of msg) ≡ msg.crc64_field
      → msg.sequence_number ≡ sequence
      → msg.payload_size ≤ room
      → ((verify bytes_of m msg sequence room).0 ≡ ok)
        × ((verify bytes_of m msg sequence room).1 ≡ some (payload_bytes bytes_of msg))
  unfolding verify
  verify_lem m table msg sequence room i t c q r =
      ground (arith, crc64_verify_ready m table (image bytes_of msg) msg.crc64_field i t)

  payload_bytes-sent :
      (table : List ℕ) (sender sequence clock : ℕ) (bs : List ℕ)
      → length bs ≤ 248
      → payload_bytes bytes_of (sent table sender sequence clock bs) ≡ bs
  unfolding payload_bytes sent filled
  payload_bytes-sent table sender sequence clock bs l =
      let pad : List ℕ = replicate (248 - length bs) 0 in
      let crc : List ℕ =
        bytes_of 8 (crc_of table (image bytes_of (filled bytes_of sender sequence clock bs))) in
      ap (λ (n : ℕ). take n ((bs ++ pad) ++ crc)) (omega arith)
      ∙ ap (take (length bs)) (append_assoc bs pad crc)
      ∙ take-append bs (pad ++ crc)

  -- A message that is created from at most 248 bytes on an initialised module is accepted by a
  -- verification that expects its sequence number and has room for it, which gives back those bytes.
  pub create-verify :
      (m m' : ChecksumManager) (table : List ℕ) (sender sequence clock room : ℕ) (bs : List ℕ)
      → m.initialized ≡ true
      → m.table ≡ some table
      → m'.initialized ≡ true
      → m'.table ≡ some table
      → length bs ≤ 248
      → length bs ≤ room
      → (msg : VitalMessage) × ((create bytes_of m sender sequence (elements bs) clock).0 ≡ ok)
        × ((create bytes_of m sender sequence (elements bs) clock).1 ≡ some msg)
        × ((verify bytes_of m' msg sequence room).0 ≡ ok)
        × ((verify bytes_of m' msg sequence room).1 ≡ some bs)
  unfolding sent image filled
  create-verify m m' table sender sequence clock room bs i t i' t' l r =
      let msg = sent table sender sequence clock bs in
      let (c0, c1) = create_lem m table sender sequence clock bs i t l in
      let (v0, v1) = verify_lem m' table msg sequence room i' t' refl refl (omega arith) in
      (msg, c0, c1, v0, v1 ∙ ap some (payload_bytes-sent table sender sequence clock bs l))

  -- A message whose memory differs in one byte from a message with the right checksum, and that
  -- carries that checksum, is rejected, and no payload is given out, with the tables of ERTMS and XZ.
  pub verify_detects :
      (p : Polynomial) (m : ChecksumManager) (table : List ℕ) (msg msg' : VitalMessage)
      (sequence room a b : ℕ) (before after : List ℕ)
      → (p ≡ ertms) ⊎ (p ≡ xz)
      → table_of p ≡ some table
      → m.initialized ≡ true
      → m.table ≡ some table
      → msg.crc64_field ≡ crc_of table (image bytes_of msg)
      → msg'.crc64_field ≡ msg.crc64_field
      → image bytes_of msg ≡ before ++ a ∷ after
      → image bytes_of msg' ≡ before ++ b ∷ after
      → All (λ d. d < 256) (before ++ a ∷ after)
      → All (λ d. d < 256) (before ++ b ∷ after)
      → a ≢ b
      → ((verify bytes_of m msg' sequence room).0 ≡ data_corruption)
        × ((verify bytes_of m msg' sequence room).1 ≡ none)
  unfolding verify
  verify_detects p m table msg msg' sequence room a b before after full h i t c c' e e' bytes bytes'
        n =
      let differs : crc_of table (image bytes_of msg') ≢ msg'.crc64_field = λ k.
        one_byte_detected p table a b before after full h bytes bytes' n
          (ap (crc_of table) (sym e) ∙ sym c ∙ sym c' ∙ sym k ∙ ap (crc_of table) e') in
      ground (arith, crc64_verify_ready m table (image bytes_of msg') msg'.crc64_field i t, differs)
