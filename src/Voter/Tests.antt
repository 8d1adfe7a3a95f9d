-- ===== src/Voter/Tests.antt =====
-- Votes over concrete buffers and channels, and the theorems of the voter applied to them.
use platform_rte.Prelude.{
  ℕ, ◌≡◌, refl, ◌⊎◌, List, [], ◌∷◌, Option, none, some, true, arith, ◌==◌, if◌then◌else◌,
}
use platform_rte.Platform.Status.{Status, ok}
use platform_rte.Platform.Safestate.{safe, handled, called, logged, Platform}
use platform_rte.Channel.{Channel, Transport, fresh_health, receive}
use platform_rte.Voter.Types.{
  VotingResult, VoterConfig, Voter, two_out_of_three, required_quorum, data_equal, bytes_equal,
  bytes_equal-IsEquivalence, IsEquivalence, channel_count_matches_strategy,
}
use platform_rte.Voter.Grouping.{
  Response, agreement, group, group_from, place, join, find_group, best_from, pick,
}
use platform_rte.Voter.Majority.{tally, Verdict, agreement-Verdict}
use platform_rte.Voter.Masking.{majority_masks}
use platform_rte.Voter.Vote.{returned, finish, vote_buffers, gather}
use platform_rte.Voter.Receive.{
  Machine, voter_receive, receive_round, poll, poll_one, start, count_healthy, judge,
}
use platform_rte.Voter.Reaction.{HasQuorum, NoQuorum, Stopped, delivered, vote_buffers_lem}
use platform_rte.Voter.Rounds.{Heard, unhealthy_never_votes}

abbrev good : List ℕ
good = 7 ∷ 8 ∷ []

abbrev bad : List ℕ
bad = 7 ∷ 9 ∷ []

-- The faulty channel answers first.
abbrev three : List Response
three = some bad ∷ some good ∷ some good ∷ []

agreement-three : agreement bytes_equal 2 three ≡ (true, some good)
unfolding agreement group group_from place join find_group best_from pick bytes_equal
agreement-three = refl

agreement-Verdict_example : Verdict bytes_equal 2 three (agreement bytes_equal 2 three)
agreement-Verdict_example =
    agreement-Verdict bytes_equal 2 three bytes_equal-IsEquivalence (omega arith)

tally-good : tally bytes_equal good three ≡ 2
unfolding bytes_equal
tally-good = refl

majority_masks_example :
    (d : List ℕ) × (agreement bytes_equal 2 three ≡ (true, some d)) × (bytes_equal good d ≡ true)
majority_masks_example =
    majority_masks bytes_equal good 2 three bytes_equal-IsEquivalence (omega arith)
      (omega (arith, tally-good)) (omega arith)

abbrev config : VoterConfig
config = record {
  voting_strategy = two_out_of_three;
  quorum_size = 0;
  channel_timeout_ms = 100;
  compare = none;
  log_disagreements = true;
  safestate_level = safe;
  safestate_reason = 4096;
  on_disagreement = true;
}

abbrev voter : Voter
voter = record {
  config = config;
  channels = 10 ∷ 11 ∷ 12 ∷ [];
  total_disagreements = 0;
  initialized = true;
}

abbrev platform : Platform
platform = record {
  setup_locked = true;
  degraded_handler = none;
  safe_handler = some 1;
  reboot_handler = none;
}

abbrev buffers : List (Option (List ℕ))
buffers = some bad ∷ some good ∷ some good ∷ []

vote_delivers : vote_buffers platform voter (some buffers) 2 ≡ returned voter (delivered good 2) []
unfolding vote_buffers agreement group group_from place join find_group best_from pick bytes_equal
    required_quorum data_equal channel_count_matches_strategy
vote_delivers = refl

-- Three different buffers: the log, the callback and the handler, and control does not come back.
vote_stops :
    vote_buffers platform voter (some (some bad ∷ some good ∷ some (1 ∷ 2 ∷ []) ∷ [])) 2 ≡ record {
      state = record voter { total_disagreements = 1 };
      result = none;
      trace =
          logged "channels disagreed (buffers)"
          ∷ called VotingResult.disagreed
          ∷ handled 1 safe 4096
          ∷ [];
    }
unfolding vote_buffers agreement group group_from place join find_group best_from pick bytes_equal
    required_quorum data_equal channel_count_matches_strategy
vote_stops = refl

config-IsEquivalence : IsEquivalence (data_equal config)
unfolding data_equal
config-IsEquivalence = bytes_equal-IsEquivalence

gather-buffers : gather buffers ≡ some three
unfolding gather
gather-buffers = refl

three_fit : channel_count_matches_strategy config 3 ≡ true
unfolding channel_count_matches_strategy
three_fit = refl

vote_buffers_lem_example :
    let o = vote_buffers platform voter (some buffers) 2 in
    ((d : List ℕ) × HasQuorum config three d × (o ≡ returned voter (delivered d 2) []))
    ⊎ (NoQuorum config three × Stopped platform voter o)
vote_buffers_lem_example =
    vote_buffers_lem platform voter buffers three 2 refl (omega arith) (omega arith) (omega arith)
      three_fit gather-buffers config-IsEquivalence

-- A transport on which every channel but 10 answers with the same data.
answer_of : ℕ → Status × List ℕ
answer_of h = if h == 10 then (ok, bad) else (ok, good)

abbrev network : Transport (Unit {0})
network = record {
  send = λ w h bytes. (ok, w);
  recv = λ w h size ms. ((answer_of h).0, (answer_of h).1, w);
}

channel_at : ℕ → Channel
channel_at a = record {
  config = record { name = none; channel_handle = a; has_send = true; has_recv = true };
  health = fresh_health;
  initialized = true;
}

abbrev machine : Machine (Unit {0})
machine = record { store = channel_at; world = tt }

unhealthy_never_votes_example :
    Heard machine.store voter.channels (poll network 2 100 (start machine) voter.channels).responses
unhealthy_never_votes_example = unhealthy_never_votes network 2 100 machine voter.channels

receive_delivers :
    (voter_receive network platform voter machine 2).0 ≡ returned voter (delivered good 2) []
unfolding voter_receive receive_round finish poll poll_one judge count_healthy receive channel_at
    answer_of agreement group group_from place join find_group best_from pick bytes_equal
    required_quorum data_equal channel_count_matches_strategy
receive_delivers = refl
