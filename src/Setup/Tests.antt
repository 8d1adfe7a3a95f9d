-- ===== src/Setup/Tests.antt =====
-- The setup-phase lock of rte_lifecycle.c at a concrete platform.
use platform_rte.Prelude.{◌≡◌, refl, none, some, false}
use platform_rte.Platform.Safestate.{Platform, degraded}
use platform_rte.Platform.Lifecycle
use platform_rte.Voter.Types.{VotingResult}
use platform_rte.Setup.{Refused, locked_refuses}

abbrev started : Platform
started = record {
  setup_locked = false;
  degraded_handler = some 1;
  safe_handler = none;
  reboot_handler = none;
}

-- Before the lock the handler is stored.
handler_stored :
    (Lifecycle.register_handler {E = VotingResult} started degraded (some 7)).1
    ≡ record started { degraded_handler = some 7 }
unfolding Lifecycle.register_handler Lifecycle.check_setup_allowed
handler_stored = refl

locked_refuses_example :
    Refused
      (Lifecycle.lock started)
      (Lifecycle.register_handler {E = VotingResult} (Lifecycle.lock started) degraded (some 7))
locked_refuses_example = (locked_refuses started).6 degraded (some 7)
