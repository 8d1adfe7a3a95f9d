-- ===== src/Checkpoint/Tries.antt =====
-- What a try of one channel in a rendezvous leaves: the send, and the receive behind it.
use platform_rte.Prelude.{
  ℕ, ◌≡◌, inl, inr, refl, sym, ap, ◌∙◌, List, [], ◌∷◌, Bool, true, ◌==◌, arith, Bool-cases, ==→eq,
}
use platform_rte.Platform.Status.{is_ok}
use platform_rte.Channel.{Channel, Transport, send, receive}
use platform_rte.Checksum.{ChecksumManager}
use platform_rte.Voter.Receive.{update}
use platform_rte.Watchdog.{Reading}
use platform_rte.Checkpoint.{message_size, memory_of, message_in}
use platform_rte.Checkpoint.Managers.{Alike, reply_confirms_checkpoint-Alike}
use platform_rte.Checkpoint.Receipts.{
  Recorder, Later, Later-same, Later-trans, send_log, receive-Later,
}
use platform_rte.Checkpoint.Answers.{Answered, receive-Answered}
use platform_rte.Checkpoint.Rounds.{Meeting, Plan, read_clock, sub_budget, await_reply, try_channel}

update_config :
    (store : ℕ → Channel) (a : ℕ) (c : Channel) (b : ℕ)
    → c.config ≡ (store a).config
    → (update store a c b).config ≡ (store b).config
update_config store a c b h = elim (Bool-cases (b == a)) [
  | inl e ↦ rw e (h ∙ ap (λ (x : ℕ). (store x).config) (sym (==→eq b a e)))
  | inr e ↦ rw e refl
]

module _ {W : Type 0} (bytes_of : ℕ → ℕ → List ℕ) (value_of : List ℕ → ℕ) (t : Transport W)
    (clock : W → Reading × W) (rec : Recorder t clock) where
  receive_config : (w : W) (c : Channel) (n ms : ℕ) → (receive t w c n ms).2.config ≡ c.config
  unfolding receive
  receive_config w c n ms = ground arith

  send_config : (w : W) (c : Channel) (bs : List ℕ) → (send t w c bs).1.config ≡ c.config
  unfolding send
  send_config w c [] = refl
  send_config w c (x ∷ xs) = ground arith

  -- `base` and `m` are the channels and the checksum manager of the site, and `from` is its world, when
  -- the rendezvous begins.
  module _ (base : ℕ → Channel) (m : ChecksumManager) (from : W) (p : Plan) where
    abbrev pub Replied : W → ℕ → Type 0
    Replied to a = Answered bytes_of value_of t clock rec base m p.config.checkpoint_id from to a

    abbrev pub Since : W → W → Type 0
    Since w w' = Later t clock rec w w'

    -- The channels keep their configuration, and the manager all but its statistics.
    abbrev pub Same : Meeting W → Type 0
    Same v =
        ((b : ℕ) → (v.site.store b).config ≡ (base b).config)
        × Alike m v.site.checksum
        × Since from v.site.world

    stored :
        (v : Meeting W) (a : ℕ) (c : Channel)
        → Same v
        → c.config ≡ (v.site.store a).config
        → (b : ℕ) → (update v.site.store a c b).config ≡ (base b).config
    stored v a c h e b = update_config v.site.store a c b e ∙ h.0 b

    pub read_clock-Since :
        (old : ℕ) (w : W) → Since w (read_clock bytes_of value_of t clock old w).1
    unfolding read_clock
    read_clock-Since old w = Later-same t clock rec w (clock w).1 (rec.reads w)

    -- What a channel that is tried leaves.
    abbrev pub Tried : ℕ → Meeting W → Bool × Meeting W → Type 0
    Tried a v (b, v') =
        Same v'
        × (v'.confirmed_count ≡ v.confirmed_count)
        × Since v.site.world v'.site.world
        × (b ≡ true → Replied v'.site.world a)

    await_reply-Tried :
        (a : ℕ) (v : Meeting W) (n : ℕ) (w : W)
        → Same v
        → Since v.site.world w
        → Tried a v (await_reply bytes_of value_of t clock p a v (n, w))
    unfolding await_reply
    await_reply-Tried a v n w h since =
        let c = v.site.store a in
        let ms = sub_budget p n in
        let (status, bytes, c', w') = receive t w c message_size ms in
        let got = receive-Later t clock rec w c message_size ms in
        let there = Later-trans t clock rec from v.site.world w h.2 since in
        let on = Later-trans t clock rec v.site.world w w' since got in
        let all = Later-trans t clock rec from w w' there got in
        let kept = stored v a c' h (receive_config w c message_size ms) in
        elim (Bool-cases (is_ok status)) [
          | inl e ↦ rw e (
            (
              kept,
              (reply_confirms_checkpoint-Alike bytes_of m v.site.checksum
                  (message_in value_of bytes) p.config.checkpoint_id h.1).1,
              all,
            ),
            refl,
            on,
            receive-Answered bytes_of value_of t clock rec base m p.config.checkpoint_id from w a c
                v.site.checksum ms (h.0 a) h.1 there e,
          )
          | inr e ↦ rw e ((kept, h.1, all), refl, on, λ q. ground arith)
        ]

    pub try_channel-Tried :
        (a : ℕ) (v : Meeting W) → Same v → Tried a v (try_channel bytes_of value_of t clock p a v)
    unfolding try_channel
    try_channel-Tried a v h =
        let bs = memory_of bytes_of p.message in
        let c = v.site.store a in
        let (status, c', w) = send t v.site.world c bs in
        let v' = record v {
          site = record (v.site) { store = update v.site.store a c'; world = w };
          last_send_status = status;
        } in
        let sent = Later-same t clock rec v.site.world w (send_log t clock rec v.site.world c bs) in
        let same : Same v' = (
          stored v a c' h (send_config v.site.world c bs),
          h.1,
          Later-trans t clock rec from v.site.world w h.2 sent,
        ) in
        let (now_ms, w') = read_clock bytes_of value_of t clock v.now_ms w in
        let (s, e', on, k) = await_reply-Tried a v' now_ms w' same (read_clock-Since v.now_ms w) in
        elim (Bool-cases (is_ok status)) [
          | inl e ↦ rw e (s, e', Later-trans t clock rec v.site.world w _ sent on, k)
          | inr e ↦ rw e (same, refl, sent, λ q. ground arith)
        ]
