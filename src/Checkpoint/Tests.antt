-- ===== src/Checkpoint/Tests.antt =====
-- Runs of a rendezvous, and examples of the theorems on it.
use platform_rte.Prelude.{
  ℕ, ◌+◌, ◌≤◌, ◌≡◌, refl, List, [], ◌∷◌, none, some, Bool, true, false, ◌==◌, arith,
}
use platform_rte.Platform.Status.{ok, timeout, not_initialized}
use platform_rte.Platform.Safestate.{Platform, safe}
use platform_rte.Channel.{Channel, Transport, fresh_health}
use platform_rte.Checksum.{ChecksumManager, zero_stats, xz}
use platform_rte.Checksum.Tables.{xz_table}
use platform_rte.Checksum.Messages.{VitalMessage, create}
use platform_rte.Buffer.{init, write, little_bytes, little_value}
use platform_rte.Voter.Types.{Voter, two_out_of_two}
use platform_rte.Watchdog.{Reading, now}
use platform_rte.Checkpoint.{
  CheckpointConfig, Site, round_cap, build_arrival_message, reply_confirms_checkpoint,
}
use platform_rte.Checkpoint.Receipts.{Receipt, Recorder}
use platform_rte.Checkpoint.Rounds.{channel_checkpoint}
use platform_rte.Checkpoint.Confirm.{arrival_confirms}
use platform_rte.Checkpoint.Fate.Ends.{Ends, channel_checkpoint-Ends}
use platform_rte.Checkpoint.Bounded.{Timed}
use platform_rte.Checkpoint.Bounded.Total.{channel_checkpoint_bounded}

-- Integers are laid out with the low byte first.
abbrev layout : ℕ → ℕ → List ℕ
layout w n = little_bytes n 0 w

abbrev value : List ℕ → ℕ
value bs = little_value 0 0 bs

-- The world is the time; no reply ever comes.
abbrev silent : Transport ℕ
silent = record { send = λ w h bs. (ok, w); recv = λ w h n ms. (timeout, [], w + ms) }

abbrev clock : ℕ → Reading × ℕ
clock w = (now w, w)

abbrev manager : Bool → ChecksumManager
manager ready = record {
  initialized = ready;
  polynomial = xz;
  table = some xz_table;
  stats = zero_stats;
}

abbrev channel : Channel
channel = record {
  config = record { name = none; channel_handle = 7; has_send = true; has_recv = true };
  health = fresh_health;
  initialized = true;
}

abbrev site : Bool → Site ℕ
site ready = record {
  store = λ a. channel;
  checksum = manager ready;
  watchdogs = record { pool = []; initialized = false };
  world = 1000;
}

abbrev voter : Voter
voter = record {
  config = record {
    voting_strategy = two_out_of_two;
    quorum_size = 0;
    channel_timeout_ms = 100;
    compare = none;
    log_disagreements = true;
    safestate_level = safe;
    safestate_reason = 4096;
    on_disagreement = false;
  };
  channels = 4 ∷ 5 ∷ [];
  total_disagreements = 0;
  initialized = true;
}

abbrev config : CheckpointConfig
config = record { checkpoint_id = 9; max_delay_ms = 300; expected_node_count = 1; watchdog = none }

abbrev platform : Platform
platform = record {
  setup_locked = true;
  degraded_handler = none;
  safe_handler = some 3;
  reboot_handler = none;
}

short_rounds : round_cap 300 ≡ 100
unfolding round_cap
short_rounds = refl

long_rounds : round_cap 10000 ≡ 250
unfolding round_cap
long_rounds = refl

refused :
    (channel_checkpoint layout value silent clock platform
      (some voter)
      (some config)
      (site false)).result
    ≡ some not_initialized
unfolding channel_checkpoint build_arrival_message init write create
refused = refl

abbrev silence : Timed silent clock
silence = record {
  time = λ w. w;
  sends = λ w h bs. refl;
  waits = λ w h n ms. omega arith;
  passes = λ w h n ms. omega arith;
  reads = λ w. refl;
  reading = λ w. refl;
}

-- A line that gives back what was sent last, with the log of its receives.
record Line : Type 0 where
  time : ℕ
  last : List ℕ
  log : List Receipt

abbrev echo : Transport Line
echo = record {
  send = λ w h bs. (ok, record w { last = bs });
  recv = λ w h n ms. (
    ok,
    w.last,
    record w {
      time = w.time + ms;
      log = record { handle = h; status = ok; bytes = w.last } ∷ w.log;
    },
  );
}

abbrev line_clock : Line → Reading × Line
line_clock w = (now w.time, w)

abbrev logged : Recorder echo line_clock
logged = record {
  log = λ w. w.log;
  sends = λ w h bs. refl;
  receives = λ w h n ms. refl;
  reads = λ w. refl;
}

abbrev line_site : Site Line
line_site = record {
  store = λ a. channel;
  checksum = manager true;
  watchdogs = record { pool = []; initialized = false };
  world = record { time = 1000; last = []; log = [] };
}

channel_checkpoint-Ends_example :
    Ends layout value echo line_clock logged platform
      (4 ∷ 5 ∷ [])
      config
      (λ a. channel)
      (manager true)
      line_site.world
      (channel_checkpoint layout value echo line_clock platform
        (some voter)
        (some config)
        line_site)
channel_checkpoint-Ends_example =
    channel_checkpoint-Ends layout value echo line_clock logged platform voter config line_site
      (omega arith) refl (omega arith) (omega arith)

channel_checkpoint_bounded_example :
    silence.time
      (channel_checkpoint layout value silent clock platform
        (some voter)
        (some config)
        (site true)).state.world
    ≤ silence.time 1000 + 300
channel_checkpoint_bounded_example =
    channel_checkpoint_bounded layout value silent clock silence platform (some voter) config
      (site true) (omega arith) (omega arith)

arrival_confirms_example :
    (msg : VitalMessage) × ((build_arrival_message layout (manager true) 9 1000).0 ≡ ok)
    × ((build_arrival_message layout (manager true) 9 1000).1 ≡ some msg)
    × ((reply_confirms_checkpoint layout (manager true) msg 8).0 ≡ (9 == 8))
arrival_confirms_example =
    arrival_confirms layout (manager true) (manager true) xz_table 9 8 1000 refl refl refl refl
      (omega arith)
