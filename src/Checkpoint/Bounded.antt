-- ===== src/Checkpoint/Bounded.antt =====
-- How long the rounds of a rendezvous wait. The whole is in Total.
pub mod Total
use platform_rte.Prelude.{
  ℕ, zero, suc, ◌+◌, ◌-◌, ◌^◌, ◌≤◌, ◌<◌, ◌≡◌, refl, sym, ap, subst, ◌∙◌, List, [], ◌∷◌, Option,
  none, some, Bool, true, false, not, ◌&&◌, ◌||◌, ltb, leb, ◌==◌, if◌then◌else◌, replicate, length,
  arith, Bool-cases, Option-cases, inl, inr, sub64, u32,
}
use platform_rte.Platform.Status.{Status, ok, is_ok}
use platform_rte.Platform.Safestate.{Platform, Outcome}
use platform_rte.Channel.{Channel, Transport, send, receive}
use platform_rte.Checksum.Messages.{VitalMessage}
use platform_rte.Voter.Types.{Voter, channel_count, max_channels}
use platform_rte.Voter.Receive.{update}
use platform_rte.Watchdog.{Reading, now, kick}
use platform_rte.Checkpoint.{
  CheckpointConfig, max_rounds, Site, round_cap, remaining_budget_ms, reading_or, message_size,
  memory_of, build_arrival_message,
}
use platform_rte.Checkpoint.Rounds.{
  Meeting, Plan, read_clock, sub_budget, await_reply, try_channel, count_confirmed, round,
  kick_watchdog, end_round, goes_on, rounds, conclude, first_meeting, meet_at, after_building,
  build_and_meet, channel_checkpoint,
}

elapsed :
    (start now_ms : ℕ) → start ≤ now_ms → now_ms < 2 ^ 64 → sub64 now_ms start ≡ now_ms - start
elapsed start now_ms low wide = omega arith

remaining :
    (start now_ms max : ℕ)
    → start ≤ now_ms
    → now_ms ≤ start + max
    → start + max < 2 ^ 64
    → max < 2 ^ 32
    → remaining_budget_ms start now_ms max ≡ start + max - now_ms
unfolding remaining_budget_ms
remaining start now_ms max low high wide narrow =
    rw (elapsed start now_ms low (omega (arith, high, wide))) (ground arith)

-- The timeout of a receive ends within the budget.
sub_budget_within :
    (p : Plan) (now_ms : ℕ)
    → p.start_ms ≤ now_ms
    → now_ms ≤ p.start_ms + p.config.max_delay_ms
    → p.start_ms + p.config.max_delay_ms < 2 ^ 64
    → p.config.max_delay_ms < 2 ^ 32
    → now_ms + sub_budget p now_ms ≤ p.start_ms + p.config.max_delay_ms
unfolding sub_budget remaining_budget_ms
sub_budget_within p now_ms low high wide narrow =
    rw (remaining p.start_ms now_ms p.config.max_delay_ms low high wide narrow) (ground arith)

-- The time of a world, which only the waiting of a receive moves on, by at most its timeout, and which the clock
-- reads.
pub record Timed {W : Type 0} (t : Transport W) (clock : W → Reading × W) : Type 0 where
  pub time : W → ℕ
  pub sends : (w : W) (h : ℕ) (bs : List ℕ) → time (t.send w h bs).1 ≡ time w
  pub waits : (w : W) (h n ms : ℕ) → time (t.recv w h n ms).2 ≤ time w + ms
  pub passes : (w : W) (h n ms : ℕ) → time w ≤ time (t.recv w h n ms).2
  pub reads : (w : W) → (clock w).0 ≡ now (time w)
  pub reading : (w : W) → time (clock w).1 ≡ time w

module _ {W : Type 0} (bytes_of : ℕ → ℕ → List ℕ) (value_of : List ℕ → ℕ) (t : Transport W)
    (clock : W → Reading × W) (h : Timed t clock) (p : Plan)
    (wide : p.start_ms + p.config.max_delay_ms < 2 ^ 64)
    (narrow : p.config.max_delay_ms < 2 ^ 32) where
  -- The budget has begun and is not exceeded.
  abbrev pub Within : W → Type 0
  Within w = (p.start_ms ≤ h.time w) × (h.time w ≤ p.start_ms + p.config.max_delay_ms)

  abbrev pub In : Meeting W → Type 0
  In v = Within v.site.world

  send_time : (w : W) (c : Channel) (bs : List ℕ) → h.time (send t w c bs).2 ≡ h.time w
  unfolding send
  send_time w c [] = refl
  send_time w c (x ∷ xs) = ground (arith, h.sends w c.config.channel_handle (x ∷ xs))

  receive_time :
      (w : W) (c : Channel) (n ms : ℕ)
      → (h.time w ≤ h.time (receive t w c n ms).3) × (h.time (receive t w c n ms).3 ≤ h.time w + ms)
  unfolding receive
  receive_time w c n ms = (
    ground (arith, h.passes w c.config.channel_handle n ms),
    ground (arith, h.waits w c.config.channel_handle n ms),
  )

  read_clock-Within :
      (old : ℕ) (w : W)
      → Within w
      → ((read_clock bytes_of value_of t clock old w).0 ≡ h.time w)
        × Within (read_clock bytes_of value_of t clock old w).1
  unfolding read_clock
  read_clock-Within old w (a, b) = (
    ap (reading_or old) (h.reads w),
    (omega (arith, h.reading w, a), omega (arith, h.reading w, b)),
  )

  await_reply-In :
      (a : ℕ) (v : Meeting W) (now_ms : ℕ) (w : W)
      → now_ms ≡ h.time w
      → Within w
      → In (await_reply bytes_of value_of t clock p a v (now_ms, w)).1
  unfolding await_reply
  await_reply-In a v now_ms w e (x, y) =
      let (low, high) = receive_time w (v.site.store a) message_size (sub_budget p now_ms) in
      let within : h.time w + sub_budget p now_ms ≤ p.start_ms + p.config.max_delay_ms =
        subst (λ (n : ℕ). n + sub_budget p now_ms ≤ p.start_ms + p.config.max_delay_ms) e
          (sub_budget_within p now_ms (omega (arith, e, x)) (omega (arith, e, y)) wide narrow) in
      (ground (arith, low, x), ground (arith, high, within))

  try_channel-In :
      (a : ℕ) (v : Meeting W) → In v → In (try_channel bytes_of value_of t clock p a v).1
  unfolding try_channel
  try_channel-In a v (x, y) =
      let sent = send t v.site.world (v.site.store a) (memory_of bytes_of p.message) in
      let e = send_time v.site.world (v.site.store a) (memory_of bytes_of p.message) in
      let v' = record v {
        site = record (v.site) { store = update v.site.store a sent.1; world = sent.2 };
        last_send_status = sent.0;
      } in
      let in' : Within sent.2 = (omega (arith, e, x), omega (arith, e, y)) in
      let (r, k) = read_clock-Within v.now_ms sent.2 in' in
      elim (Bool-cases (is_ok sent.0)) [
        | inl q ↦
            let o = read_clock bytes_of value_of t clock v.now_ms sent.2 in
            rw q (await_reply-In a v' o.0 o.1 (r ∙ sym (h.reading sent.2)) k)
        | inr q ↦ rw q in'
      ]

  count-In : (o : Bool × Meeting W) → In o.1 → In (count_confirmed o)
  count-In (true, v) i = i
  count-In (false, v) i = i

  round-In :
      (as' : List ℕ) (fs : List Bool) (v : Meeting W)
      → In v
      → In (round bytes_of value_of t clock p as' fs v).1
  unfolding round
  round-In [] fs v i = i
  round-In (a ∷ as') [] v i =
      let o = try_channel bytes_of value_of t clock p a v in
      round-In as' [] (count_confirmed o) (count-In o (try_channel-In a v i))
  round-In (a ∷ as') (true ∷ fs) v i = round-In as' fs v i
  round-In (a ∷ as') (false ∷ fs) v i =
      let o = try_channel bytes_of value_of t clock p a v in
      round-In as' fs (count_confirmed o) (count-In o (try_channel-In a v i))

  kick_watchdog-In :
      (v : Meeting W) → In v → In (kick_watchdog bytes_of value_of t clock p.config v)
  unfolding kick_watchdog
  kick_watchdog-In v (x, y) = elim (Option-cases p.config.watchdog) [
    | inl e ↦ rw e (x, y)
    | inr (k, e) ↦
        rw e (omega (arith, h.reading v.site.world, x), omega (arith, h.reading v.site.world, y))
  ]

  end_round-In : (v : Meeting W) → In v → In (end_round bytes_of value_of t clock p v)
  unfolding end_round
  end_round-In v i =
      let o = read_clock bytes_of value_of t clock v.now_ms v.site.world in
      let (r, k) = read_clock-Within v.now_ms v.site.world i in
      kick_watchdog-In (record v { site = record (v.site) { world = o.1 }; now_ms = o.0 }) k

  pub rounds-In :
      (as' : List ℕ) (n : ℕ) (fs : List Bool) (v : Meeting W)
      → In v
      → In (rounds bytes_of value_of t clock p as' n fs v).1
  unfolding rounds
  rounds-In as' zero fs v i = i
  rounds-In as' (suc n) fs v i = elim (Bool-cases (goes_on p v)) [
    | inl g ↦
        let r = round bytes_of value_of t clock p as' fs v in
        rw g (
          rounds-In as' n r.0 (end_round bytes_of value_of t clock p r.1)
            (end_round-In r.1 (round-In as' fs v i)))
    | inr g ↦ rw g i
  ]

  pub conclude-In :
      (platform : Platform) (v : Meeting W)
      → In v
      → Within (conclude bytes_of value_of t clock platform p v).state.world
  unfolding conclude
  conclude-In platform v i =
      elim (Bool-cases (leb p.config.expected_node_count v.confirmed_count)) [
        | inl q ↦ rw q (kick_watchdog-In v i)
        | inr q ↦ rw q i
      ]
