-- ===== src/Setup.antt =====
-- The end of the setup phase (rte_lifecycle.c), for every operation that asks the lock.
mod Tests
use platform_rte.Prelude.{ℕ, ◌≡◌, ◌≢◌, refl, List, Option, none, some, true, arith}
use platform_rte.Platform.Status.{Status, ok}
use platform_rte.Platform.Safestate.{Level, Event, Platform}
use platform_rte.Platform.Lifecycle
use platform_rte.Channel
use platform_rte.Channel.{Channel, ChannelConfig}
use platform_rte.Voter.Types.{Voter, VoterConfig, VotingResult}
use platform_rte.Voter.Vote
use platform_rte.Comparator
use platform_rte.Comparator.{Comparator, ComparatorConfig}
use platform_rte.Watchdog
use platform_rte.Watchdog.{Manager, WatchdogConfig}

-- A call that fails and leaves the state that it was given.
abbrev pub Refused {ℓ} : {S E : Type ℓ} → S → Status × S × List E → Type ℓ
Refused s (status, s', trace) = (status ≢ ok) × (s' ≡ s)

-- After the setup phase is locked no channel, voter or comparator is initialised or takes a channel, no
-- watchdog is created and no safe-state handler is registered: each call fails and changes nothing.
pub locked_refuses :
    (p : Platform)
    → ((c : Channel) (config : ChannelConfig)
        → Refused c (Channel.init_channel {E = VotingResult} (Lifecycle.lock p) c config))
      × ((v : Voter) (config : VoterConfig) → Refused v (Vote.init (Lifecycle.lock p) v config))
      × ((v : Voter) (channel : Option ℕ)
          → Refused v (Vote.register_channel (Lifecycle.lock p) v channel))
      × ((c : Comparator) (config : ComparatorConfig)
          → Refused c (Comparator.init (Lifecycle.lock p) c config))
      × ((c : Comparator) (channel : Option ℕ)
          → Refused c (Comparator.register_channel (Lifecycle.lock p) c channel))
      × ((m : Manager) (config : WatchdogConfig)
          → ((Watchdog.create (Lifecycle.lock p) m config).0.0 ≢ ok)
            × ((Watchdog.create (Lifecycle.lock p) m config).1 ≡ m))
      × ((level : Level) (handler : Option ℕ)
          → Refused
              (Lifecycle.lock p)
              (Lifecycle.register_handler {E = VotingResult} (Lifecycle.lock p) level handler))
unfolding Channel.init_channel Vote.init Vote.register_channel Comparator.init
    Comparator.register_channel Watchdog.create Lifecycle.register_handler
    Lifecycle.check_setup_allowed Lifecycle.lock
locked_refuses p = (
  (λ c config. ground arith),
  (λ v config. ground arith),
  (λ v channel. ground arith),
  (λ c config. ground arith),
  (λ c channel. ground arith),
  (λ m config. ground arith),
  (λ level handler. ground arith),
)
