-- ===== src/Checkpoint/Rounds.antt =====
-- rte_channel_checkpoint: rounds of sending and receiving until the expected channels confirmed, the
-- budget is used up, or 64 rounds ran.
use platform_rte.Prelude.{
  ℕ, zero, suc, ◌+◌, List, [], ◌∷◌, Option, none, some, Bool, true, false, ◌&&◌, ◌||◌, ltb, leb,
  ◌==◌, if◌then◌else◌, replicate,
}
use platform_rte.Platform.Status.{Status, ok, invalid_param, timeout, is_ok}
use platform_rte.Platform.Safestate.{
  safe, Platform, enter, after_enter, Outcome, reason_checkpoint_timeout,
}
use platform_rte.Channel.{Transport, send, receive}
use platform_rte.Checksum.Messages.{VitalMessage}
use platform_rte.Voter.Types.{Voter, channel_count, max_channels}
use platform_rte.Voter.Receive.{update}
use platform_rte.Watchdog.{Reading, kick}
use platform_rte.Checkpoint.{
  CheckpointConfig, max_rounds, Site, remaining_budget_ms, round_cap, reading_or, message_size,
  memory_of, message_in, build_arrival_message, reply_confirms_checkpoint,
}

-- The variables of the rendezvous, but for those that do not change.
pub record Meeting (W : Type 0) : Type 0 where
  pub site : Site W
  pub now_ms : ℕ
  pub confirmed_count : ℕ
  pub last_send_status : Status
  pub last_recv_status : Status

-- What does not change: the configuration, the arrival message, the start and the round length.
pub record Plan : Type 0 where
  pub config : CheckpointConfig
  pub message : VitalMessage
  pub start_ms : ℕ
  pub cap_ms : ℕ

-- The timeout of a receive.
unfoldable pub sub_budget : Plan → ℕ → ℕ
sub_budget p now_ms =
    let left = remaining_budget_ms p.start_ms now_ms p.config.max_delay_ms in
    if ltb p.cap_ms left then p.cap_ms else left

abbrev pub count_confirmed : {W : Type 0} → Bool × Meeting W → Meeting W
count_confirmed (true, v) = record v { confirmed_count = v.confirmed_count + 1 }
count_confirmed (false, v) = v

-- The condition of the loop, but for the count of rounds.
unfoldable pub goes_on : {W : Type 0} → Plan → Meeting W → Bool
goes_on p v =
    ltb v.confirmed_count p.config.expected_node_count
    && ltb 0 (remaining_budget_ms p.start_ms v.now_ms p.config.max_delay_ms)

abbrev pub first_meeting : {W : Type 0} → Site W → ℕ → Meeting W
first_meeting s start_ms = record {
  site = s;
  now_ms = start_ms;
  confirmed_count = 0;
  last_send_status = ok;
  last_recv_status = ok;
}

abbrev pub returns_at : {W : Type 0} → Site W → Status → Outcome Unit (Site W) Status
returns_at s status = record { state = s; result = some status; trace = [] }

module _ {W : Type 0} (bytes_of : ℕ → ℕ → List ℕ) (value_of : List ℕ → ℕ) (t : Transport W)
    (clock : W → Reading × W) where
  -- `rte_timer_now` into a variable.
  unfoldable pub read_clock : ℕ → W → ℕ × W
  read_clock old w = let (reading, w') = clock w in (reading_or old reading, w')

  -- The receive behind a successful send, in the world after the clock was read.
  unfoldable pub await_reply : Plan → ℕ → Meeting W → ℕ × W → Bool × Meeting W
  unfolding sub_budget
  await_reply p a v (now_ms, w) =
      let (status, bytes, c, w') =
        receive t w (v.site.store a) message_size (sub_budget p now_ms) in
      let (confirms, m) =
        reply_confirms_checkpoint bytes_of v.site.checksum (message_in value_of bytes)
          p.config.checkpoint_id in
      let received = record v { now_ms = now_ms; last_recv_status = status } in
      let at = record (v.site) { store = update v.site.store a c; world = w' } in
      if is_ok status
      then (confirms, record received { site = record at { checksum = m } })
      else (false, record received { site = at })

  -- `checkpoint_try_channel` on the channel at this address.
  unfoldable pub try_channel : Plan → ℕ → Meeting W → Bool × Meeting W
  unfolding read_clock await_reply
  try_channel p a v =
      let (status, c, w) = send t v.site.world (v.site.store a) (memory_of bytes_of p.message) in
      let sent = record v {
        site = record (v.site) { store = update v.site.store a c; world = w };
        last_send_status = status;
      } in
      if is_ok status then await_reply p a sent (read_clock v.now_ms w) else (false, sent)

  -- One round over the channels that have not confirmed; past RTE_VOTER_MAX_CHANNELS there is no flag.
  unfoldable pub round : Plan → List ℕ → List Bool → Meeting W → List Bool × Meeting W
  unfolding try_channel
  round p [] flags v = (flags, v)
  round p (a ∷ as') [] v = round p as' [] (count_confirmed (try_channel p a v))
  round p (a ∷ as') (true ∷ fs) v = let (fs', v') = round p as' fs v in (true ∷ fs', v')
  round p (a ∷ as') (false ∷ fs) v =
      let tried = try_channel p a v in
      let (fs', v') = round p as' fs (count_confirmed tried) in (tried.0 ∷ fs', v')

  -- `rte_watchdog_kick` on the watchdog, if there is one; the kick reads the clock.
  unfoldable pub kick_watchdog : CheckpointConfig → Meeting W → Meeting W
  kick_watchdog config v = elim config.watchdog [
    | none ↦ v
    | some h ↦
        let (reading, w) = clock v.site.world in
        let (status, m) = kick v.site.watchdogs (some h) reading in
        record v { site = record (v.site) { watchdogs = m; world = w } }
  ]

  -- The end of a round: the clock is read, and the watchdog kicked.
  unfoldable pub end_round : Plan → Meeting W → Meeting W
  unfolding read_clock kick_watchdog
  end_round p v =
      let (now_ms, w) = read_clock v.now_ms v.site.world in
      kick_watchdog p.config (record v { site = record (v.site) { world = w }; now_ms = now_ms })

  -- The loop with so many rounds left.
  unfoldable pub rounds : Plan → List ℕ → ℕ → List Bool → Meeting W → List Bool × Meeting W
  unfolding goes_on round end_round
  rounds p channels zero flags v = (flags, v)
  rounds p channels (suc left) flags v =
      let (flags', v') = round p channels flags v in
      let rest = rounds p channels left flags' (end_round p v') in
      if goes_on p v then rest else (flags, v)

  -- The end of the rendezvous. RTE_STATUS_TIMEOUT would come back if the SAFE state did.
  unfoldable pub conclude : Platform → Plan → Meeting W → Outcome Unit (Site W) Status
  unfolding kick_watchdog
  conclude platform p v =
      let (returns, entry) = enter platform safe reason_checkpoint_timeout in
      if leb p.config.expected_node_count v.confirmed_count
      then record { state = (kick_watchdog p.config v).site; result = some ok; trace = [] }
      else record { state = v.site; result = after_enter returns timeout; trace = entry }

  -- The rendezvous with an arrival message, at a site whose clock is read.
  unfoldable pub meet_at :
      Platform
      → List ℕ
      → CheckpointConfig
      → VitalMessage
      → Site W
      → ℕ × W
      → Outcome Unit (Site W) Status
  unfolding rounds conclude
  meet_at platform channels config message s (start_ms, w) =
      let p : Plan = record {
        config = config;
        message = message;
        start_ms = start_ms;
        cap_ms = round_cap config.max_delay_ms;
      } in
      let (flags, v) =
        rounds p channels max_rounds (replicate max_channels false)
          (first_meeting (record s { world = w }) start_ms) in
      conclude platform p v

  unfoldable pub after_building :
      Platform
      → List ℕ
      → CheckpointConfig
      → Site W
      → Status × Option VitalMessage
      → Outcome Unit (Site W) Status
  unfolding meet_at read_clock
  after_building platform channels config s (status, none) = returns_at s status
  after_building platform channels config s (status, some message) =
      if is_ok status
      then meet_at platform channels config message s (read_clock 0 s.world)
      else returns_at s status

  -- The rendezvous behind the checks of the arguments.
  unfoldable pub build_and_meet :
      Platform → List ℕ → CheckpointConfig → Site W → Outcome Unit (Site W) Status
  unfolding after_building
  build_and_meet platform channels config s =
      let (clock_ms, w) = read_clock 0 s.world in
      let (status, message, m) =
        build_arrival_message bytes_of s.checksum config.checkpoint_id clock_ms in
      after_building platform channels config (record s { checksum = m; world = w })
        (status, message)

  -- `rte_channel_checkpoint`; `none` is NULL.
  unfoldable pub channel_checkpoint :
      Platform → Option Voter → Option CheckpointConfig → Site W → Outcome Unit (Site W) Status
  unfolding build_and_meet
  channel_checkpoint platform none config s = returns_at s invalid_param
  channel_checkpoint platform (some voter) none s = returns_at s invalid_param
  channel_checkpoint platform (some voter) (some config) s =
      if config.expected_node_count == 0 || ltb (channel_count voter) config.expected_node_count
      then returns_at s invalid_param
      else build_and_meet platform voter.channels config s
