-- ===== src/Election.antt =====
-- rte_election.c: which of several replicas is ONLINE, from a snapshot of the candidates.
pub mod Winner
pub mod Rounds
mod Tests
use platform_rte.Prelude.{
  ℕ, zero, suc, List, [], ◌∷◌, Option, none, some, Bool, true, false, ◌&&◌, ◌||◌, ltb, ◌==◌,
  if◌then◌else◌, get_or,
}
use platform_rte.Platform.Status.{
  Status, ok, invalid_param, not_initialized, Array, null, elements, count,
}
use platform_rte.Dual.Types.{DualState, idle, unknown, online, standby}

-- `rte_election_candidate_t`
pub record Candidate : Type 0 where
  pub id : ℕ
  pub startup_timestamp_ms : ℕ
  pub degraded : Bool

-- `rte_election_t`
pub record Election : Type 0 where
  pub own_id : ℕ
  pub own_last_state : DualState
  pub winner_id : ℕ
  pub have_winner : Bool

-- RTE_REDUNDANCY_CONFIG_MAX_REPLICAS
abbrev pub max_replicas : ℕ
max_replicas = 5

-- `rte_election_init`; the result is the initialised storage.
pub init : Option Election → Option ℕ → Status × Option Election
init none config = (invalid_param, none)
init (some election) none = (invalid_param, some election)
init (some election) (some own_id) = (
  ok,
  some (record { own_id = own_id; own_last_state = idle; winner_id = 0; have_winner = false }),
)

-- The loop of `find_own_index` at index `i`, over the candidates that are left.
pub find_own_index : ℕ → ℕ → List Candidate → Option ℕ
find_own_index own_id i [] = none
find_own_index own_id i (c ∷ rest) =
    if c.id == own_id then some i else find_own_index own_id (suc i) rest

-- The test of `find_winner_index`: older, or as old with the smaller id.
pub beats : Candidate → Candidate → Bool
beats c w =
    ltb c.startup_timestamp_ms w.startup_timestamp_ms
    || (c.startup_timestamp_ms == w.startup_timestamp_ms && ltb c.id w.id)

-- The loop of `find_winner_index` at index `i`; `candidates[winner]` is in range.
pub winner_loop : List Candidate → ℕ → ℕ → List Candidate → ℕ
winner_loop candidates winner i [] = winner
winner_loop candidates winner i (c ∷ rest) =
    winner_loop candidates (if beats c (get_or candidates winner c) then i else winner) (suc i) rest

pub find_winner_index : List Candidate → ℕ
unfolding winner_loop beats
find_winner_index [] = 0
find_winner_index (c ∷ rest) = winner_loop (c ∷ rest) 0 1 rest

-- The state of `rte_election_execute` when the own candidate is at `own_index`; `first` stands for
-- a read out of range, which `find_winner_index` rules out.
pub elect : Election → Candidate → List Candidate → ℕ → Election
elect election first candidates own_index =
    let winner_index = find_winner_index candidates in
    let winner = get_or candidates winner_index first in
    record election {
      winner_id = winner.id;
      have_winner = true;
      own_last_state = if winner_index == own_index then online else standby winner.degraded;
    }

-- The body behind the argument checks.
pub run_round : Election → List Candidate → Election
run_round election [] = record election { own_last_state = unknown }
run_round election (c ∷ rest) = elim (find_own_index election.own_id 0 (c ∷ rest)) [
  | none ↦ record election { own_last_state = unknown }
  | some own_index ↦ elect election c (c ∷ rest) own_index
]

round_of : Election → Array Candidate → Status × Option Election
unfolding run_round
round_of election (elements candidates) = (ok, some (run_round election candidates))
round_of election (null zero) = (ok, some (run_round election []))
round_of election (null (suc n)) = (invalid_param, some election)

-- `rte_election_execute`
pub execute : Option Election → Array Candidate → Status × Option Election
unfolding round_of
execute none candidates = (invalid_param, none)
execute (some election) candidates =
    if ltb max_replicas (count candidates)
    then (invalid_param, some election)
    else round_of election candidates

pub get_own_state : Option Election → DualState
get_own_state none = idle
get_own_state (some election) = election.own_last_state

-- `rte_election_get_winner_id`; the flag says whether `out_id` is not NULL.
pub get_winner_id : Option Election → Bool → Status × Option ℕ
get_winner_id none out_id = (invalid_param, none)
get_winner_id (some election) false = (invalid_param, none)
get_winner_id (some election) true =
    if election.have_winner then (ok, some election.winner_id) else (not_initialized, none)
