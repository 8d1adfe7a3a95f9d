-- ===== src/Voter/Vote.antt =====
-- The setup of a voter, its reaction to a result, and `rte_voter_vote_buffers` (rte_voter.c).
use Prim.Native.String.{String}
use platform_rte.Prelude.{
  ℕ, ◌+◌, List, [], ◌∷◌, ◌++◌, Option, none, some, Bool, true, false, not, ltb, leb, ◌==◌, length,
  get_elem?, if◌then◌else◌, u32,
}
use platform_rte.Platform.Status.{
  Status, ok, invalid_param, not_initialized, resource_exhausted, hardware_fault, is_ok,
}
use platform_rte.Platform.Safestate.{Event, logged, called, Outcome, Platform, enter, after_enter}
use platform_rte.Platform.Lifecycle.{check_setup_allowed}
use platform_rte.Voter.Types.{
  Strategy, two_out_of_two, two_out_of_three, nmr, other, VotingResult, VoterConfig, Voter,
  channel_count, max_channels, max_message_size, channel_count_matches_strategy, required_quorum,
  data_equal,
}
use platform_rte.Voter.Grouping.{Response, agreement}

-- What a call gives back: its status, and what it writes through `result`, `data` and the size
-- (`none` where it writes nothing).
pub record Reply : Type 0 where
  pub status : Status
  pub result : Option VotingResult
  pub bytes : Option (List ℕ)
  pub size : Option ℕ

abbrev pub refused : Status → Reply
refused s = record { status = s; result = none; bytes = none; size = none }

abbrev pub Voted : Type 0 → Type 0
Voted S = Outcome VotingResult S Reply

abbrev pub returned : {E S R : Type 0} → S → R → List (Event E) → Outcome E S R
returned s r t = record { state = s; result = some r; trace = t }

-- The `switch` of `rte_voter_init`.
valid_strategy : Strategy → ℕ → Bool
valid_strategy two_out_of_two quorum = true
valid_strategy two_out_of_three quorum = true
valid_strategy nmr quorum = not (quorum == 0)
valid_strategy (other k) quorum = false

-- `rte_voter_init` on storage and a configuration that are not NULL.
unfoldable pub init : Platform → Voter → VoterConfig → Status × Voter × List (Event VotingResult)
unfolding check_setup_allowed valid_strategy
init p storage config =
    let (allowed, trace) = check_setup_allowed p in
    if not (is_ok allowed)
    then (allowed, storage, trace)
    else if valid_strategy config.voting_strategy config.quorum_size
    then (
      ok,
      record { config = config; channels = []; total_disagreements = 0; initialized = true },
      trace,
    )
    else (invalid_param, storage, trace)

-- `rte_voter_register_channel`; a channel is its address, `none` for NULL.
unfoldable pub register_channel :
    Platform → Voter → Option ℕ → Status × Voter × List (Event VotingResult)
unfolding check_setup_allowed
register_channel p v none = (invalid_param, v, [])
register_channel p v (some channel) =
    let (allowed, trace) = check_setup_allowed p in
    if not v.initialized
    then (not_initialized, v, [])
    else if not (is_ok allowed)
    then (allowed, v, trace)
    else if leb max_channels (channel_count v)
    then (resource_exhausted, v, trace)
    else (ok, record v { channels = v.channels ++ channel ∷ [] }, trace)

unfoldable pub get_channel : Voter → ℕ → Option ℕ
get_channel v index = get_elem? v.channels index

pub destroy : Voter → Status × Voter
destroy v = (ok, record v { initialized = false })

abbrev pub when : {E : Type 0} → Bool → Event E → List (Event E)
when true e = e ∷ []
when false e = []

-- The reaction to a disagreement: count it, log it, tell the application, enter the safe state.
unfoldable pub react : Platform → Voter → String → Voted Voter
unfolding enter
react p v text =
    let (returns, entry) = enter p v.config.safestate_level v.config.safestate_reason in
    record {
      state = record v { total_disagreements = u32 (v.total_disagreements + 1) };
      result = after_enter returns (record {
        status = hardware_fault;
        result = some VotingResult.disagreed;
        bytes = none;
        size = some 0;
      });
      trace =
          when v.config.log_disagreements (logged text)
          ++ (when v.config.on_disagreement (called VotingResult.disagreed) ++ entry);
    }

-- The end of both voting functions, from the result and the data to copy out.
unfoldable pub finish : Platform → Voter → String → VotingResult → Option (List ℕ) → ℕ → Voted Voter
unfolding react
finish p v text VotingResult.agreed bytes data_size =
    returned v
      (record {
        status = ok;
        result = some VotingResult.agreed;
        bytes = bytes;
        size = some data_size;
      })
      []
finish p v text VotingResult.disagreed bytes data_size = react p v text
finish p v text r bytes data_size =
    returned v (record { status = hardware_fault; result = some r; bytes = none; size = some 0 })
      (when v.config.on_disagreement (called r))

-- The result of an agreement.
abbrev pub as_result : Bool → VotingResult
as_result true = VotingResult.agreed
as_result false = VotingResult.disagreed

-- The buffers as responses, unless one is NULL.
unfoldable pub gather : List (Option (List ℕ)) → Option (List Response)
gather [] = some []
gather (none ∷ bs) = none
gather (some b ∷ bs) = elim (gather bs) [ none ↦ none | some rs ↦ some (some b ∷ rs) ]

unfoldable pub vote : Platform → Voter → List Response → ℕ → Voted Voter
unfolding finish
vote p v rs data_size =
    let (agrees, bytes) = agreement (data_equal v.config) (required_quorum v.config) rs in
    finish p v "channels disagreed (buffers)" (as_result agrees) bytes data_size

-- `rte_voter_vote_buffers` for a voter that is not NULL. `buffers` is `none` for NULL; each buffer
-- holds `data_size` bytes or is NULL, and `buffer_count` is their number.
unfoldable pub vote_buffers : Platform → Voter → Option (List (Option (List ℕ))) → ℕ → Voted Voter
unfolding vote gather
vote_buffers p v none data_size = returned v (refused invalid_param) []
vote_buffers p v (some buffers) data_size =
    if data_size == 0
    then returned v (refused invalid_param) []
    else if not v.initialized
    then returned v (refused not_initialized) []
    else if ltb max_message_size data_size
    then returned v (refused resource_exhausted) []
    else if ltb max_channels (length buffers)
    then returned v (refused invalid_param) []
    else if not (channel_count_matches_strategy v.config (length buffers))
    then returned v (refused invalid_param) []
    else elim (gather buffers) [
      | none ↦ returned v (refused invalid_param) []
      | some rs ↦ vote p v rs data_size
    ]
