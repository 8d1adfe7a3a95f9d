-- ===== src/Checkpoint/Fate/Ends.antt =====
-- How a rendezvous ends: with as many confirmations as are expected, or in the SAFE state.
use platform_rte.Prelude.{
  ℕ, zero, suc, ◌≤◌, ◌≡◌, ◌⊎◌, inl, inr, refl, sym, subst, List, [], ◌∷◌, none, some, Bool, true,
  false, ◌||◌, ltb, leb, ◌==◌, replicate, length, All, arith, Bool-cases,
}
use platform_rte.Platform.Status.{Status, ok}
use platform_rte.Platform.Safestate.{safe, Platform, enter, Outcome, reason_checkpoint_timeout}
use platform_rte.Channel.{Channel, Transport}
use platform_rte.Checksum.{ChecksumManager}
use platform_rte.Checksum.Messages.{VitalMessage}
use platform_rte.Voter.Types.{Voter, channel_count, max_channels}
use platform_rte.Watchdog.{Reading}
use platform_rte.Checkpoint.{CheckpointConfig, max_rounds, Site, round_cap, build_arrival_message}
use platform_rte.Checkpoint.Rounds.{
  Meeting, Plan, read_clock, rounds, conclude, first_meeting, meet_at, after_building,
  kick_watchdog, build_and_meet, channel_checkpoint,
}
use platform_rte.Checkpoint.Confirm.{build_arrival_message_ok}
use platform_rte.Checkpoint.Managers.{Alike, build_arrival_message-Alike}
use platform_rte.Checkpoint.Receipts.{Recorder, Later, Later-same, Later-trans}
use platform_rte.Checkpoint.Answers.{Answered}
use platform_rte.Checkpoint.Fate.{picked, Kept, kick_watchdog-Idle, Idle-Kept, rounds-Kept}

module _ {W : Type 0} (bytes_of : ℕ → ℕ → List ℕ) (value_of : List ℕ → ℕ) (t : Transport W)
    (clock : W → Reading × W) where
  -- Behind the checks a rendezvous has an arrival message, and meets with it.
  pub checkpoint_meets :
      (platform : Platform) (voter : Voter) (config : CheckpointConfig) (s : Site W)
      → s.checksum.initialized ≡ true
      → 1 ≤ config.expected_node_count
      → config.expected_node_count ≤ channel_count voter
      → let (clock_ms, w) = read_clock bytes_of value_of t clock 0 s.world in
        let m = (build_arrival_message bytes_of s.checksum config.checkpoint_id clock_ms).2 in
        (msg : VitalMessage) × (channel_checkpoint bytes_of value_of t clock platform
            (some voter)
            (some config)
            s
          ≡ meet_at bytes_of value_of t clock platform voter.channels config msg
              (record s { checksum = m; world = w })
              (read_clock bytes_of value_of t clock 0 w))
  unfolding channel_checkpoint build_and_meet after_building
  checkpoint_meets platform voter config s i low high =
      let (clock_ms, w) = read_clock bytes_of value_of t clock 0 s.world in
      let (e, (msg, f)) =
        build_arrival_message_ok bytes_of s.checksum config.checkpoint_id clock_ms i in
      let refused : (config.expected_node_count == 0
            || ltb (channel_count voter) config.expected_node_count)
          ≡ false =
        ground arith in
      (msg, rw (refused, e, f) refl)

  -- A rendezvous that meets succeeds or does not come back.
  pub meet_at_result :
      (platform : Platform) (channels : List ℕ) (config : CheckpointConfig) (message : VitalMessage)
      (s : Site W) (o : ℕ × W)
      → let r = meet_at bytes_of value_of t clock platform channels config message s o in
        (r.result ≡ some ok) ⊎ (r.result ≡ none)
  unfolding meet_at conclude enter
  meet_at_result platform channels config message s (start_ms, w) =
      let p : Plan = record {
        config = config;
        message = message;
        start_ms = start_ms;
        cap_ms = round_cap config.max_delay_ms;
      } in
      let v = first_meeting (record s { world = w }) start_ms in
      let r =
        rounds bytes_of value_of t clock p channels max_rounds (replicate max_channels false) v in
      elim (Bool-cases (leb config.expected_node_count r.1.confirmed_count)) [
        | inl h ↦ rw h (inl refl)
        | inr h ↦ rw h (inr refl)
      ]

module _ {W : Type 0} (bytes_of : ℕ → ℕ → List ℕ) (value_of : List ℕ → ℕ) (t : Transport W)
    (clock : W → Reading × W) (rec : Recorder t clock) where
  -- Success, with channels that answered from this world on, or the SAFE state, which does not come back.
  abbrev pub Ends :
      Platform
      → List ℕ
      → CheckpointConfig
      → (ℕ → Channel)
      → ChecksumManager
      → W
      → Outcome Unit (Site W) Status
      → Type 0
  Ends platform channels config base m from o =
      ((o.result ≡ some ok)
        × (o.trace ≡ [])
        × ((fs : List Bool) × (config.expected_node_count ≤ length (picked channels fs))
            × All
                (Answered bytes_of value_of t clock rec base m config.checkpoint_id from
                  o.state.world)
                (picked channels fs)))
      ⊎ ((o.result ≡ none) × (o.trace ≡ (enter platform safe reason_checkpoint_timeout).1))

  conclude-Ends :
      (platform : Platform) (channels : List ℕ) (base : ℕ → Channel) (m : ChecksumManager)
      (from : W) (p : Plan) (o : List Bool × Meeting W)
      → Kept bytes_of value_of t clock rec base m from p channels o
      → Ends platform channels p.config base m from
          (conclude bytes_of value_of t clock platform p o.1)
  unfolding conclude enter
  conclude-Ends platform channels base m from p (fs, v) (e, k) =
      let v' = kick_watchdog bytes_of value_of t clock p.config v in
      let (e', k') =
        Idle-Kept bytes_of value_of t clock rec base m from p channels fs v v'
          (kick_watchdog-Idle bytes_of value_of t clock rec base m from p v) (e, k) in
      elim (Bool-cases (leb p.config.expected_node_count v.confirmed_count)) [
        | inl h ↦ rw h (inl (refl, refl, (fs, ground arith, k')))
        | inr h ↦ rw h (inr (refl, refl))
      ]

  picked-replicate : (as' : List ℕ) (n : ℕ) → picked as' (replicate n false) ≡ []
  picked-replicate [] n = refl
  picked-replicate (a ∷ as') zero = refl
  picked-replicate (a ∷ as') (suc n) = picked-replicate as' n

  meet_at-Ends :
      (platform : Platform) (channels : List ℕ) (config : CheckpointConfig) (message : VitalMessage)
      (s : Site W) (m : ChecksumManager) (from : W) (o : ℕ × W)
      → length channels ≤ max_channels
      → Alike m s.checksum
      → Later t clock rec from o.1
      → Ends platform channels config s.store m from
          (meet_at bytes_of value_of t clock platform channels config message s o)
  unfolding meet_at
  meet_at-Ends platform channels config message s m from (start_ms, w) l alike since =
      let p : Plan = record {
        config = config;
        message = message;
        start_ms = start_ms;
        cap_ms = round_cap config.max_delay_ms;
      } in
      let v = first_meeting (record s { world = w }) start_ms in
      let none_yet = picked-replicate channels max_channels in
      conclude-Ends platform channels s.store m from p
        (rounds bytes_of value_of t clock p channels max_rounds (replicate max_channels false) v)
        (rounds-Kept bytes_of value_of t clock rec s.store m from p channels max_rounds
          (replicate max_channels false) v l (λ b. refl, alike, since) (rw none_yet (refl, tt)))

  clock-Later :
      (old : ℕ) (w : W) → Later t clock rec w (read_clock bytes_of value_of t clock old w).1
  unfolding read_clock
  clock-Later old w = Later-same t clock rec w (clock w).1 (rec.reads w)

-- A rendezvous of a voter with at most eight channels, with the checksum module initialised and an expected
-- count from 1 to the number of channels, over a transport whose receives are logged. Either it
-- succeeds, without any event, and at least as many channels as expected, told apart by their place
-- in the voter, received during it, over their own handle, a reply that confirms the checkpoint
-- under the checksum of the site; or the SAFE state is entered, with the reason that a checkpoint timed
-- out, and control never comes back.
pub channel_checkpoint-Ends :
    {W : Type 0} (bytes_of : ℕ → ℕ → List ℕ) (value_of : List ℕ → ℕ) (t : Transport W)
    (clock : W → Reading × W) (rec : Recorder t clock) (platform : Platform) (voter : Voter)
    (config : CheckpointConfig) (s : Site W)
    → channel_count voter ≤ max_channels
    → s.checksum.initialized ≡ true
    → 1 ≤ config.expected_node_count
    → config.expected_node_count ≤ channel_count voter
    → Ends bytes_of value_of t clock rec platform voter.channels config s.store s.checksum s.world
        (channel_checkpoint bytes_of value_of t clock platform (some voter) (some config) s)
channel_checkpoint-Ends bytes_of value_of t clock rec platform voter config s l i low high =
    let (clock_ms, w) = read_clock bytes_of value_of t clock 0 s.world in
    let (msg, met) =
      checkpoint_meets bytes_of value_of t clock platform voter config s i low high in
    let m = (build_arrival_message bytes_of s.checksum config.checkpoint_id clock_ms).2 in
    let (now_ms, w') = read_clock bytes_of value_of t clock 0 w in
    let since =
      Later-trans t clock rec s.world w w' (clock-Later bytes_of value_of t clock rec 0 s.world)
        (clock-Later bytes_of value_of t clock rec 0 w) in
    subst
      (Ends bytes_of value_of t clock rec platform voter.channels config s.store s.checksum s.world)
      (sym met)
      (meet_at-Ends bytes_of value_of t clock rec platform voter.channels config msg
        (record s { checksum = m; world = w }) s.checksum s.world (now_ms, w') l
        (build_arrival_message-Alike bytes_of s.checksum config.checkpoint_id clock_ms) since)
