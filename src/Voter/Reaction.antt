-- ===== src/Voter/Reaction.antt =====
-- What a caller of the voting functions may rely on.
use Prim.Native.String.{String}
use platform_rte.Prelude.{
  ℕ, ◌+◌, ◌≤◌, ◌<◌, ◌≡◌, refl, ◌≢◌, ◌⊎◌, inl, inr, List, [], ◌∷◌, ◌++◌, Option, none, some, Bool,
  true, arith, length, All, if◌then◌else◌, u32,
}
use mathlib.Core.List.{Memᴰ}
use platform_rte.Platform.Status.{ok, hardware_fault}
use platform_rte.Platform.Safestate.{degraded, Event, called, logged, Platform, enter}
use platform_rte.Voter.Types.{
  VotingResult, VoterConfig, Voter, max_channels, max_message_size, channel_count_matches_strategy,
  required_quorum, data_equal, IsEquivalence,
}
use platform_rte.Voter.Grouping.{Response, agreement}
use platform_rte.Voter.Majority.{tally, Every, Verdict, quorate, split, agreement-Verdict}
use platform_rte.Voter.Vote.{
  Reply, Voted, returned, finish, react, vote_buffers, gather, as_result, when,
}

-- A configuration that fits some number of channels has a quorum between 1 and that number.
pub quorum_bounds :
    (c : VoterConfig) (n : ℕ)
    → channel_count_matches_strategy c n ≡ true
    → (1 ≤ required_quorum c) × (required_quorum c ≤ n)
unfolding channel_count_matches_strategy required_quorum
quorum_bounds c n h = (ground arith, ground arith)

-- The reaction to a disagreement: it is counted; at any level but DEGRADED control never comes
-- back, and otherwise the call fails; the application, if it registered a callback, is told before
-- the safe state is entered.
pub record Stopped (p : Platform) (v : Voter) (o : Voted Voter) : Type 0 where
  pub counted : o.state ≡ record v { total_disagreements = u32 (v.total_disagreements + 1) }
  pub halts : v.config.safestate_level ≢ degraded → o.result ≡ none
  pub fails :
      (r : Reply)
      → o.result ≡ some r
      → (r.status ≡ hardware_fault) × (r.result ≡ some VotingResult.disagreed) × (r.bytes ≡ none)
  pub told :
      (before : List (Event VotingResult)) × (o.trace
        ≡ before
          ++ ((if v.config.on_disagreement then called VotingResult.disagreed ∷ [] else [])
              ++ (enter p v.config.safestate_level v.config.safestate_reason).1))

react-Stopped : (p : Platform) (v : Voter) (text : String) → Stopped p v (react p v text)
unfolding react
react-Stopped p v text = record {
  counted = refl;
  halts = λ h. ground arith;
  fails = λ r h. ground arith;
  told = (when v.config.log_disagreements (logged text), ground arith);
}

-- The data of a quorum of the responses.
abbrev pub HasQuorum : VoterConfig → List Response → List ℕ → Type 0
HasQuorum c rs d = Memᴰ (some d) rs × (required_quorum c ≤ tally (data_equal c) d rs)

-- No data of a response has a quorum.
abbrev pub NoQuorum : VoterConfig → List Response → Type 0
NoQuorum c rs = All (Every (λ e. tally (data_equal c) e rs < required_quorum c)) rs

abbrev pub delivered : List ℕ → ℕ → Reply
delivered d size = record {
  status = ok;
  result = some VotingResult.agreed;
  bytes = some d;
  size = some size;
}

pub vote_lem :
    (p : Platform) (v : Voter) (text : String) (rs : List Response) (size : ℕ)
    (r : Bool × Option (List ℕ))
    → Verdict (data_equal v.config) (required_quorum v.config) rs r
    → let o = finish p v text (as_result r.0) r.1 size in
      ((d : List ℕ) × HasQuorum v.config rs d × (o ≡ returned v (delivered d size) []))
      ⊎ (NoQuorum v.config rs × Stopped p v o)
unfolding finish
vote_lem p v text rs size _ (quorate d m enough most) = inl (d, (m, enough), refl)
vote_lem p v text rs size _ (split small) = inr (small, react-Stopped p v _)

-- `rte_voter_vote_buffers` on an initialised voter, with at most eight buffers of a valid size, none
-- of them NULL, whose number fits the strategy: either the data of a quorum of the buffers is
-- delivered, with no effect on the voter or the platform; or no data has a quorum, and the call
-- stops as on every disagreement.
pub vote_buffers_lem :
    (p : Platform) (v : Voter) (buffers : List (Option (List ℕ))) (rs : List Response) (size : ℕ)
    → v.initialized ≡ true
    → 0 < size
    → size ≤ max_message_size
    → length buffers ≤ max_channels
    → channel_count_matches_strategy v.config (length buffers) ≡ true
    → gather buffers ≡ some rs
    → IsEquivalence (data_equal v.config)
    → let o = vote_buffers p v (some buffers) size in
      ((d : List ℕ) × HasQuorum v.config rs d × (o ≡ returned v (delivered d size) []))
      ⊎ (NoQuorum v.config rs × Stopped p v o)
unfolding vote_buffers
vote_buffers_lem p v buffers rs size init pos small few fits all eqv = ground (
  arith,
  vote_lem p v "channels disagreed (buffers)" rs size
      (agreement (data_equal v.config) (required_quorum v.config) rs)
      (agreement-Verdict (data_equal v.config) (required_quorum v.config) rs eqv
        (quorum_bounds v.config (length buffers) fits).0),
)
