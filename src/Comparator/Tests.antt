-- ===== src/Comparator/Tests.antt =====
-- Comparisons of concrete channels and buffers, and the theorems about them there.
use platform_rte.Prelude.{ℕ, ◌≡◌, refl, [], ◌∷◌, none, some, true, arith, ◌==◌, if◌then◌else◌}
use platform_rte.Platform.Status.{ok}
use platform_rte.Platform.Safestate.{safe, handled, called, logged, Platform}
use platform_rte.Channel.{Channel, Transport, fresh_health, receive}
use platform_rte.Voter.Types.{VotingResult, Voter, two_out_of_two, bytes_equal}
use platform_rte.Voter.Vote.{vote_buffers}
use platform_rte.Voter.Receive.{Machine}
use platform_rte.Comparator.{
  Comparator, both, data_equal, finish, execute, execute_buffers, compare_channels, judge,
}
use platform_rte.Comparator.Fate.{Fate, execute-Fate}
use platform_rte.Comparator.AsVoter.{Matches, vote_as_comparator}

abbrev platform : Platform
platform = record {
  setup_locked = true;
  degraded_handler = none;
  safe_handler = some 1;
  reboot_handler = none;
}

abbrev comparator : Comparator
comparator = record {
  config = record {
    channel_timeout_ms = 100;
    compare = none;
    log_disagreements = true;
    safestate_level = safe;
    safestate_reason = 4096;
    on_disagreement = true;
  };
  registered = both 10 11;
  total_disagreements = 0;
  initialized = true;
}

abbrev voter : Voter
voter = record {
  config = record {
    voting_strategy = two_out_of_two;
    quorum_size = 0;
    channel_timeout_ms = 100;
    compare = none;
    log_disagreements = true;
    safestate_level = safe;
    safestate_reason = 4096;
    on_disagreement = true;
  };
  channels = 10 ∷ 11 ∷ [];
  total_disagreements = 0;
  initialized = true;
}

-- Channel 10 answers, and 11 answers with something else.
abbrev network : Transport (Unit {0})
network = record {
  send = λ w h bytes. (ok, w);
  recv = λ w h size ms. (ok, (if h == 10 then 1 else 2) ∷ [], w);
}

channel_at : ℕ → Channel
channel_at a = record {
  config = record { name = none; channel_handle = a; has_send = true; has_recv = true };
  health = fresh_health;
  initialized = true;
}

abbrev machine : Machine (Unit {0})
machine = record { store = channel_at; world = tt }

execute_stops : (execute network platform comparator machine 1).0 ≡ record {
  state = record comparator { total_disagreements = 1 };
  result = none;
  trace = logged "channels disagreed" ∷ called VotingResult.disagreed ∷ handled 1 safe 4096 ∷ [];
}
unfolding execute compare_channels judge finish data_equal bytes_equal receive channel_at
execute_stops = refl

execute-Fate_example :
    Fate network platform comparator machine 1 10 11 (execute network platform comparator machine 1)
execute-Fate_example =
    execute-Fate network platform comparator machine 1 10 11 refl refl (omega arith) (omega arith)

vote_as_comparator_example :
    Matches true
      (vote_buffers platform voter (some (some (1 ∷ []) ∷ some (2 ∷ []) ∷ [])) 1)
      (execute_buffers platform comparator (some (1 ∷ [])) (some (2 ∷ [])) 1)
unfolding data_equal bytes_equal
vote_as_comparator_example =
    vote_as_comparator platform voter comparator (1 ∷ []) (2 ∷ []) 1 refl
      (refl, refl, refl, refl, refl) refl refl refl
