-- ===== src/Checkpoint/Bounded/Total.antt =====
-- How long a rendezvous waits in all.
use platform_rte.Prelude.{
  ℕ, ◌+◌, ◌^◌, ◌≤◌, ◌<◌, ◌≡◌, sym, ap, ◌∙◌, List, Option, none, some, false, ◌||◌, ltb, ◌==◌,
  replicate, arith, Bool-cases, inl, inr,
}
use platform_rte.Platform.Status.{Status, is_ok}
use platform_rte.Platform.Safestate.{Platform}
use platform_rte.Channel.{Transport}
use platform_rte.Checksum.Messages.{VitalMessage}
use platform_rte.Voter.Types.{Voter, channel_count, max_channels}
use platform_rte.Watchdog.{Reading}
use platform_rte.Checkpoint.{
  CheckpointConfig, max_rounds, Site, round_cap, reading_or, build_arrival_message,
}
use platform_rte.Checkpoint.Rounds.{
  Plan, read_clock, rounds, first_meeting, meet_at, after_building, build_and_meet,
  channel_checkpoint,
}
use platform_rte.Checkpoint.Bounded.{Timed, rounds-In, conclude-In}

module _ {W : Type 0} (bytes_of : ℕ → ℕ → List ℕ) (value_of : List ℕ → ℕ) (t : Transport W)
    (clock : W → Reading × W) (h : Timed t clock) where
  meet_at_time :
      (platform : Platform) (channels : List ℕ) (config : CheckpointConfig) (message : VitalMessage)
      (s : Site W) (o : ℕ × W)
      → o.0 ≡ h.time o.1
      → h.time o.1 + config.max_delay_ms < 2 ^ 64
      → config.max_delay_ms < 2 ^ 32
      → h.time (meet_at bytes_of value_of t clock platform channels config message s o).state.world
        ≤ h.time o.1 + config.max_delay_ms
  unfolding meet_at
  meet_at_time platform channels config message s (start_ms, w) e wide narrow =
      let p : Plan = record {
        config = config;
        message = message;
        start_ms = start_ms;
        cap_ms = round_cap config.max_delay_ms;
      } in
      let v = first_meeting (record s { world = w }) start_ms in
      let flags = replicate max_channels false in
      let fits : start_ms + config.max_delay_ms < 2 ^ 64 = omega (arith, e, wide) in
      let r = rounds bytes_of value_of t clock p channels max_rounds flags v in
      let (low, high) = conclude-In bytes_of value_of t clock h p fits narrow platform r.1 (
        rounds-In bytes_of value_of t clock h p fits narrow channels max_rounds flags v
          (omega (arith, e), omega (arith, e))) in
      omega (arith, e, high)

  after_building_time :
      (platform : Platform) (channels : List ℕ) (config : CheckpointConfig) (s : Site W)
      (x : Status × Option VitalMessage)
      → h.time s.world + config.max_delay_ms < 2 ^ 64
      → config.max_delay_ms < 2 ^ 32
      → h.time (after_building bytes_of value_of t clock platform channels config s x).state.world
        ≤ h.time s.world + config.max_delay_ms
  unfolding after_building read_clock
  after_building_time platform channels config s (status, none) wide narrow = omega arith
  after_building_time platform channels config s (status, some msg) wide narrow =
      elim (Bool-cases (is_ok status)) [
        | inl q ↦
            let o = read_clock bytes_of value_of t clock 0 s.world in
            let e = h.reading s.world in
            let met =
              meet_at_time platform channels config msg s o
                (ap (reading_or 0) (h.reads s.world) ∙ sym e) (omega (arith, e, wide)) narrow in
            rw q (omega (arith, met, e))
        | inr q ↦ rw q (omega arith)
      ]

  rendezvous_time :
      (platform : Platform) (channels : List ℕ) (config : CheckpointConfig) (s : Site W)
      → h.time s.world + config.max_delay_ms < 2 ^ 64
      → config.max_delay_ms < 2 ^ 32
      → h.time (build_and_meet bytes_of value_of t clock platform channels config s).state.world
        ≤ h.time s.world + config.max_delay_ms
  unfolding build_and_meet read_clock
  rendezvous_time platform channels config s wide narrow =
      let o = read_clock bytes_of value_of t clock 0 s.world in
      let b = build_arrival_message bytes_of s.checksum config.checkpoint_id o.0 in
      let s' = record s { checksum = b.2; world = o.1 } in
      let e = h.reading s.world in
      let done =
        after_building_time platform channels config s' (b.0, b.1) (omega (arith, e, wide))
          narrow in
      omega (arith, done, e)

-- The receives of a rendezvous never wait for more than max_delay_ms together: if only the waiting of a receive
-- takes time, and at most its timeout, the clock reads that time and does not wrap, then at most
-- max_delay_ms have passed at the end, however it ends.
pub channel_checkpoint_bounded :
    {W : Type 0} (bytes_of : ℕ → ℕ → List ℕ) (value_of : List ℕ → ℕ) (t : Transport W)
    (clock : W → Reading × W) (h : Timed t clock) (platform : Platform) (voter : Option Voter)
    (config : CheckpointConfig) (s : Site W)
    → h.time s.world + config.max_delay_ms < 2 ^ 64
    → config.max_delay_ms < 2 ^ 32
    → h.time
        (channel_checkpoint bytes_of value_of t clock platform voter (some config) s).state.world
      ≤ h.time s.world + config.max_delay_ms
unfolding channel_checkpoint
channel_checkpoint_bounded bytes_of value_of t clock h platform none config s wide narrow =
    omega arith
channel_checkpoint_bounded bytes_of value_of t clock h platform (some voter) config s wide narrow =
    let refused =
      config.expected_node_count == 0 || ltb (channel_count voter) config.expected_node_count in
    elim (Bool-cases refused) [
      | inl q ↦ rw q (omega arith)
      | inr q ↦
          rw q (
            rendezvous_time bytes_of value_of t clock h platform voter.channels config s wide
              narrow)
    ]
