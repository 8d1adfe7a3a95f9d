-- ===== src/Checkpoint/Answers.antt =====
-- The replies that a channel gave in a rendezvous, by the receipts of the transport.
use platform_rte.Prelude.{ℕ, ◌≡◌, ◌∙◌, ap, sym, List, [], ◌∷◌, ◌++◌, true, All}
use mathlib.Core.List.{append_assoc}
use platform_rte.Platform.Status.{is_ok}
use platform_rte.Channel.{Channel, ChannelConfig, Transport, receive}
use platform_rte.Checksum.{ChecksumManager}
use platform_rte.Watchdog.{Reading}
use platform_rte.Checkpoint.{message_size, message_in, reply_confirms_checkpoint}
use platform_rte.Checkpoint.Managers.{Alike, reply_confirms_checkpoint-Alike}
use platform_rte.Checkpoint.Receipts.{Receipt, Recorder, Later, receive_log}

-- The reply that a receipt holds confirms the checkpoint, under this manager.
abbrev pub Confirms : (ℕ → ℕ → List ℕ) → (List ℕ → ℕ) → ChecksumManager → ℕ → Receipt → Type 0
Confirms bytes_of value_of m id r =
    (is_ok r.status ≡ true)
    × ((reply_confirms_checkpoint bytes_of m (message_in value_of r.bytes) id).0 ≡ true)

module _ {W : Type 0} (bytes_of : ℕ → ℕ → List ℕ) (value_of : List ℕ → ℕ) (t : Transport W)
    (clock : W → Reading × W) (rec : Recorder t clock) (base : ℕ → Channel) (m : ChecksumManager)
    (id : ℕ) where
  -- Between the two worlds the handle of the channel at this address gave a reply that confirms.
  abbrev pub Answered : W → W → ℕ → Type 0
  Answered from to a =
      (newer : List Receipt) × (r : Receipt) × (older : List Receipt) × (rec.log to
        ≡ newer ++ r ∷ (older ++ rec.log from))
      × (r.handle ≡ (base a).config.channel_handle)
      × Confirms bytes_of value_of m id r

  pub Answered-Later :
      (from to to' : W) (a : ℕ)
      → Later t clock rec to to'
      → Answered from to a
      → Answered from to' a
  Answered-Later from to to' a (new, e) (newer, r, older, l, h, k) = (
    new ++ newer,
    r,
    older,
    e ∙ ap (λ rs. new ++ rs) l ∙ sym (append_assoc new newer (r ∷ (older ++ rec.log from))),
    h,
    k,
  )

  pub all-Later :
      (from to to' : W) (as' : List ℕ)
      → Later t clock rec to to'
      → All (Answered from to) as'
      → All (Answered from to') as'
  all-Later from to to' [] l ks = tt
  all-Later from to to' (a ∷ as') l (k, ks) =
      (Answered-Later from to to' a l k, all-Later from to to' as' l ks)

  -- A receive whose reply is accepted.
  pub receive-Answered :
      (from w : W) (a : ℕ) (c : Channel) (m' : ChecksumManager) (ms : ℕ)
      → c.config ≡ (base a).config
      → Alike m m'
      → Later t clock rec from w
      → is_ok (receive t w c message_size ms).0 ≡ true
      → (reply_confirms_checkpoint bytes_of m'
          (message_in value_of (receive t w c message_size ms).1)
          id).0
        ≡ true
      → Answered from (receive t w c message_size ms).3 a
  receive-Answered from w a c m' ms same alike (older, e) good accepted =
      let (status, bytes, c', w') = receive t w c message_size ms in
      let r : Receipt = record {
        handle = c.config.channel_handle;
        status = status;
        bytes = bytes;
      } in
      (
        [],
        r,
        older,
        receive_log t clock rec w c message_size ms good ∙ ap (λ rs. r ∷ rs) e,
        ap (λ (x : ChannelConfig). x.channel_handle) same,
        (
          good,
          sym (reply_confirms_checkpoint-Alike bytes_of m m' (message_in value_of bytes) id alike).0
              ∙ accepted,
        ),
      )
