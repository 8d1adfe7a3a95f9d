-- ===== src/Voter/Types.antt =====
-- The types of include/rte/redundancy/voter/rte_voter.h, and the tests on a configuration.
use platform_rte.Prelude.{
  ℕ, ◌-◌, ◌^◌, ◌≡◌, refl, List, [], ◌∷◌, Option, none, some, Bool, true, false, ◌&&◌, leb, ◌==◌,
  arith, length, ap,
}
use platform_rte.Platform.Safestate.{Level}

-- `rte_voting_strategy_t`; `other` is a value that the enumeration does not name.
pub data Strategy : Type 0 where
  two_out_of_two : Strategy
  two_out_of_three : Strategy
  nmr : Strategy
  other : ℕ → Strategy

-- `rte_voting_result_t`
pub data VotingResult : Type 0 where
  agreed : VotingResult
  disagreed : VotingResult
  timeout : VotingResult
  insufficient_quorum : VotingResult

-- `rte_voter_config_t`. `compare` is the custom comparison with its context, if there is one, and
-- `on_disagreement` says whether that callback is registered.
pub record VoterConfig : Type 0 where
  pub voting_strategy : Strategy
  pub quorum_size : ℕ
  pub channel_timeout_ms : ℕ
  pub compare : Option (List ℕ → List ℕ → Bool)
  pub log_disagreements : Bool
  pub safestate_level : Level
  pub safestate_reason : ℕ
  pub on_disagreement : Bool

-- `rte_voter_t`: the addresses of the registered channels, `channel_count` of them.
pub record Voter : Type 0 where
  pub config : VoterConfig
  pub channels : List ℕ
  pub total_disagreements : ℕ
  pub initialized : Bool

abbrev pub channel_count : Voter → ℕ
channel_count v = length v.channels

-- RTE_VOTER_MAX_CHANNELS and RTE_VOTER_MAX_MESSAGE_SIZE
abbrev pub max_channels : ℕ
max_channels = 8

abbrev pub max_message_size : ℕ
max_message_size = 256

-- The `switch` of `voter_channel_count_matches_strategy`.
count_fits : Strategy → ℕ → ℕ → Bool
count_fits two_out_of_two quorum n = n == 2
count_fits two_out_of_three quorum n = n == 3
count_fits nmr quorum n = leb 1 n && (leb 1 quorum && leb quorum n)
count_fits (other k) quorum n = false

unfoldable pub channel_count_matches_strategy : VoterConfig → ℕ → Bool
unfolding count_fits
channel_count_matches_strategy c n = count_fits c.voting_strategy c.quorum_size n

-- The `switch` of `voter_required_quorum`.
quorum_of : Strategy → ℕ → ℕ
quorum_of two_out_of_two quorum = 2
quorum_of two_out_of_three quorum = 2
quorum_of nmr quorum = quorum
quorum_of (other k) quorum = 2 ^ 32 - 1

unfoldable pub required_quorum : VoterConfig → ℕ
unfolding quorum_of
required_quorum c = quorum_of c.voting_strategy c.quorum_size

-- `memcmp(a, b, size) == 0` on buffers of the same size.
unfoldable pub bytes_equal : List ℕ → List ℕ → Bool
bytes_equal [] [] = true
bytes_equal [] (y ∷ ys) = false
bytes_equal (x ∷ xs) [] = false
bytes_equal (x ∷ xs) (y ∷ ys) = x == y && bytes_equal xs ys

-- `voter_data_equal`
unfoldable pub data_equal : VoterConfig → List ℕ → List ℕ → Bool
data_equal c a b = elim c.compare [ none ↦ bytes_equal a b | some f ↦ f a b ]

-- What a comparison has to be for "the channels agree" to mean one value.
pub record IsEquivalence (same : List ℕ → List ℕ → Bool) : Type 0 where
  pub reflexive : (a : List ℕ) → same a a ≡ true
  pub symmetric : (a b : List ℕ) → same a b ≡ same b a
  pub congruent : (a b c : List ℕ) → same a b ≡ true → same c a ≡ same c b

pub bytes_equal_self : (a : List ℕ) → bytes_equal a a ≡ true
unfolding bytes_equal
bytes_equal_self [] = refl
bytes_equal_self (x ∷ xs) = ground (arith, bytes_equal_self xs)

pub eq_of_bytes_equal : (a b : List ℕ) → bytes_equal a b ≡ true → a ≡ b
unfolding bytes_equal
eq_of_bytes_equal [] [] h = refl
eq_of_bytes_equal [] (y ∷ ys) h = cc
eq_of_bytes_equal (x ∷ xs) [] h = cc
eq_of_bytes_equal (x ∷ xs) (y ∷ ys) h = ground (arith, eq_of_bytes_equal xs ys)

bytes_equal_symm : (a b : List ℕ) → bytes_equal a b ≡ bytes_equal b a
unfolding bytes_equal
bytes_equal_symm [] [] = refl
bytes_equal_symm [] (y ∷ ys) = refl
bytes_equal_symm (x ∷ xs) [] = refl
bytes_equal_symm (x ∷ xs) (y ∷ ys) = ground (arith, bytes_equal_symm xs ys)

-- The default comparison is an equivalence.
pub bytes_equal-IsEquivalence : IsEquivalence bytes_equal
bytes_equal-IsEquivalence = record {
  reflexive = bytes_equal_self;
  symmetric = bytes_equal_symm;
  congruent = λ a b c h. ap (bytes_equal c) (eq_of_bytes_equal a b h);
}
