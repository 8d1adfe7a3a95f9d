-- ===== src/Voter/Queries/Tests.antt =====
-- A look-up by name among three channels, two of which have the same name.
use platform_rte.Prelude.{ℕ, ◌≡◌, refl, [], ◌∷◌, some, none, true, false, ◌==◌, if◌then◌else◌}
use platform_rte.Platform.Safestate.{safe}
use platform_rte.Channel.{Channel, fresh_health}
use platform_rte.Voter.Types.{Voter, two_out_of_three}
use platform_rte.Voter.Queries.{get_channel_by_name, named_loop, has_name}

abbrev store : ℕ → Channel
store a = record {
  config = record {
    name = if a == 4 then some "A" else some "B";
    channel_handle = a;
    has_send = true;
    has_recv = true;
  };
  health = fresh_health;
  initialized = true;
}

abbrev voter : Voter
voter = record {
  config = record {
    voting_strategy = two_out_of_three;
    quorum_size = 0;
    channel_timeout_ms = 100;
    compare = none;
    log_disagreements = true;
    safestate_level = safe;
    safestate_reason = 4096;
    on_disagreement = false;
  };
  channels = 4 ∷ 5 ∷ 6 ∷ [];
  total_disagreements = 0;
  initialized = true;
}

finds_first : get_channel_by_name store (some voter) (some "B") ≡ some 5
unfolding get_channel_by_name named_loop has_name
finds_first = refl
