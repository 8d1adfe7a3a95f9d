-- ===== src/Checkpoint/Receipts.antt =====
-- What a transport gave: a log of the receives in the world, which a send and the clock leave as it is.
use platform_rte.Prelude.{
  ℕ, ◌≡◌, refl, ◌∙◌, ap, sym, List, [], ◌∷◌, ◌++◌, true, inl, inr, ◌==◌, Bool-cases, arith,
}
use mathlib.Core.List.{append_assoc}
use platform_rte.Platform.Status.{Status, is_ok}
use platform_rte.Channel.{Channel, Transport, send, receive}
use platform_rte.Watchdog.{Reading}

-- A receive on a handle, with what it gave.
pub record Receipt : Type 0 where
  pub handle : ℕ
  pub status : Status
  pub bytes : List ℕ

-- The log has the newest receive first.
pub record Recorder {W : Type 0} (t : Transport W) (clock : W → Reading × W) : Type 0 where
  pub log : W → List Receipt
  pub sends : (w : W) (h : ℕ) (bs : List ℕ) → log (t.send w h bs).1 ≡ log w
  pub receives :
      (w : W) (h n ms : ℕ)
      → log (t.recv w h n ms).2
        ≡ record { handle = h; status = (t.recv w h n ms).0; bytes = (t.recv w h n ms).1 } ∷ log w
  pub reads : (w : W) → log (clock w).1 ≡ log w

module _ {W : Type 0} (t : Transport W) (clock : W → Reading × W) (rec : Recorder t clock) where
  -- The log of the second world continues that of the first.
  abbrev pub Later : W → W → Type 0
  Later w w' = (new : List Receipt) × (rec.log w' ≡ new ++ rec.log w)

  pub Later-same : (w w' : W) → rec.log w' ≡ rec.log w → Later w w'
  Later-same w w' e = ([], e)

  pub Later-trans : (w w' w'' : W) → Later w w' → Later w' w'' → Later w w''
  Later-trans w w' w'' (new, e) (newer, e') =
      (newer ++ new, e' ∙ ap (λ rs. newer ++ rs) e ∙ sym (append_assoc newer new (rec.log w)))

  pub send_log : (w : W) (c : Channel) (bs : List ℕ) → rec.log (send t w c bs).2 ≡ rec.log w
  unfolding send
  send_log w c [] = refl
  send_log w c (x ∷ xs) = ground (arith, rec.sends w c.config.channel_handle (x ∷ xs))

  pub receive-Later : (w : W) (c : Channel) (n ms : ℕ) → Later w (receive t w c n ms).3
  unfolding receive
  receive-Later w c n ms = elim (Bool-cases (n == 0)) [
    | inl e ↦ rw e ([], refl)
    | inr e ↦ elim (Bool-cases c.initialized) [
      | inl i ↦
          rw (e, i)
            (
              record {
                handle = c.config.channel_handle;
                status = (t.recv w c.config.channel_handle n ms).0;
                bytes = (t.recv w c.config.channel_handle n ms).1;
              }
                  ∷ [],
              rec.receives w c.config.channel_handle n ms,
            )
      | inr i ↦ rw (e, i) ([], refl)
    ]
  ]

  -- A receive that succeeds stands in the log.
  pub receive_log :
      (w : W) (c : Channel) (n ms : ℕ)
      → is_ok (receive t w c n ms).0 ≡ true
      → rec.log (receive t w c n ms).3
        ≡ record {
          handle = c.config.channel_handle;
          status = (receive t w c n ms).0;
          bytes = (receive t w c n ms).1;
        }
          ∷ rec.log w
  unfolding receive
  receive_log w c n ms e = ground (arith, rec.receives w c.config.channel_handle n ms)
