-- ===== src/Comparator/AsVoter.antt =====
-- The comparison of two buffers is the 2-out-of-2 vote of rte_voter.c on them.
use platform_rte.Prelude.{
  ℕ, ◌≡◌, inl, inr, refl, ap, List, [], ◌∷◌, Option, none, some, Bool, true, false, not, ltb, ◌==◌,
  arith, Bool-cases, if◌then◌else◌,
}
use Prim.Native.String.{String}
use platform_rte.Platform.Status.{invalid_param, not_initialized, resource_exhausted}
use platform_rte.Platform.Safestate.{Platform}
use platform_rte.Voter.Types.{
  VotingResult, two_out_of_two, Voter, VoterConfig, channel_count_matches_strategy, required_quorum,
  bytes_equal,
}
use platform_rte.Voter.Types
use platform_rte.Voter.Grouping.{
  agreement, group, group_from, place, join, find_group, best_from, pick,
}
use platform_rte.Voter.Vote.{vote_buffers, vote, gather, Voted, as_result, returned, refused}
use platform_rte.Voter.Vote
use platform_rte.Comparator.{ComparatorConfig, Comparator, execute_buffers}
use platform_rte.Comparator

-- The options that the two services share are the same.
abbrev pub SameOptions : VoterConfig → ComparatorConfig → Type 0
SameOptions v c =
    (v.compare ≡ c.compare)
    × (v.log_disagreements ≡ c.log_disagreements)
    × (v.safestate_level ≡ c.safestate_level)
    × (v.safestate_reason ≡ c.safestate_reason)
    × (v.on_disagreement ≡ c.on_disagreement)

-- The agreement on two responses, with a quorum of 2.
agreement_two :
    (same : List ℕ → List ℕ → Bool) (a b : List ℕ)
    → agreement same 2 (some a ∷ some b ∷ []) ≡ (if same b a then (true, some a) else (false, none))
unfolding agreement group group_from place join find_group best_from pick
agreement_two same a b = elim (Bool-cases (same b a)) [ inl h ↦ rw h refl | inr h ↦ rw h refl ]

-- A caller of the one sees what a caller of the other sees; `logs` says whether the log, whose texts
-- differ, counts.
abbrev pub Matches : Bool → Voted Voter → Voted Comparator → Type 0
Matches logs o o' =
    (o.result ≡ o'.result)
    × (o.state.total_disagreements ≡ o'.state.total_disagreements)
    × (logs ≡ false → o.trace ≡ o'.trace)

finish-Matches :
    (p : Platform) (v : Voter) (c : Comparator) (text : String) (a : List ℕ) (n : ℕ) (same : Bool)
    → SameOptions v.config c.config
    → v.total_disagreements ≡ c.total_disagreements
    → Matches c.config.log_disagreements
        (Vote.finish p v text (as_result same) (if same then some a else none) n)
        (Comparator.finish p c (if same then VotingResult.agreed else VotingResult.disagreed) a n)
unfolding Vote.finish Vote.react Comparator.finish Comparator.react
finish-Matches p v c text a n true e d = (refl, d, λ h. refl)
finish-Matches p v c text a n false (e, l, s, r, o) d =
    rw (s, r, d, o, l) (refl, refl, λ h. rw h refl)

two_of_two :
    (c : VoterConfig)
    → c.voting_strategy ≡ two_out_of_two
    → (required_quorum c ≡ 2) × (channel_count_matches_strategy c 2 ≡ true)
unfolding required_quorum channel_count_matches_strategy
two_of_two c h = (ground arith, ground arith)

-- The checks of `rte_voter_vote_buffers` on two buffers that are there.
vote_two :
    (p : Platform) (v : Voter) (a b : List ℕ) (n : ℕ)
    → v.config.voting_strategy ≡ two_out_of_two
    → vote_buffers p v (some (some a ∷ some b ∷ [])) n ≡ (
        if n == 0
        then returned v (refused invalid_param) []
        else if not v.initialized
        then returned v (refused not_initialized) []
        else if ltb 256 n
        then returned v (refused resource_exhausted) []
        else (let same = Types.data_equal v.config b a in
            Vote.finish p v "channels disagreed (buffers)"
              (as_result same)
              (if same then some a else none)
              n))
unfolding vote_buffers vote gather
vote_two p v a b n two =
    ground (arith, two_of_two v.config two, agreement_two (Types.data_equal v.config) a b)

Matches-if :
    (logs b b' : Bool) (o₁ o₂ : Voted Voter) (o₁' o₂' : Voted Comparator)
    → b ≡ b'
    → Matches logs o₁ o₁'
    → Matches logs o₂ o₂'
    → Matches logs (if b then o₁ else o₂) (if b' then o₁' else o₂')
Matches-if logs true b' o₁ o₂ o₁' o₂' e h k = rw⁻¹ e h
Matches-if logs false b' o₁ o₂ o₁' o₂' e h k = rw⁻¹ e k

same_compare :
    (v : VoterConfig) (c : ComparatorConfig) (a b : List ℕ)
    → v.compare ≡ c.compare
    → Types.data_equal v a b ≡ Comparator.data_equal c a b
unfolding Types.data_equal Comparator.data_equal
same_compare v c a b h =
    ap (λ (o : Option (List ℕ → List ℕ → Bool)). elim o [ none ↦ bytes_equal a b | some f ↦ f a b ])
      h

-- Voting on two buffers with a 2-out-of-2 voter and comparing them gives the caller the same, if the
-- two services have the same options and the comparison is symmetric: the same reply, or no return in
-- both cases, the same count of disagreements and, unless the log tells them apart, the same trace.
pub vote_as_comparator :
    (p : Platform) (v : Voter) (c : Comparator) (a b : List ℕ) (n : ℕ)
    → v.config.voting_strategy ≡ two_out_of_two
    → SameOptions v.config c.config
    → v.initialized ≡ c.initialized
    → v.total_disagreements ≡ c.total_disagreements
    → Comparator.data_equal c.config b a ≡ Comparator.data_equal c.config a b
    → Matches c.config.log_disagreements
        (vote_buffers p v (some (some a ∷ some b ∷ [])) n)
        (execute_buffers p c (some a) (some b) n)
unfolding execute_buffers
vote_as_comparator p v c a b n two same i d symmetric =
    let equal = Comparator.data_equal c.config a b in
    let o =
      Vote.finish p v "channels disagreed (buffers)" (as_result equal)
        (if equal then some a else none) n in
    let o' =
      Comparator.finish p c (if equal then VotingResult.agreed else VotingResult.disagreed) a n in
    let large =
      Matches-if c.config.log_disagreements (ltb 256 n) (ltb 256 n)
        (returned v (refused resource_exhausted) []) o (returned c (refused resource_exhausted) [])
        o' refl (refl, d, λ _. refl)
        (finish-Matches p v c "channels disagreed (buffers)" a n equal same d) in
    let unready =
      Matches-if c.config.log_disagreements (not v.initialized) (not c.initialized)
        (returned v (refused not_initialized) [])
        (if ltb 256 n then returned v (refused resource_exhausted) [] else o)
        (returned c (refused not_initialized) [])
        (if ltb 256 n then returned c (refused resource_exhausted) [] else o') (ap not i)
        (refl, d, λ _. refl) large in
    rw (vote_two p v a b n two, same_compare v.config c.config b a same.0, symmetric)
      (Matches-if c.config.log_disagreements (n == 0) (n == 0)
        (returned v (refused invalid_param) [])
        (if not v.initialized
          then returned v (refused not_initialized) []
          else if ltb 256 n
          then returned v (refused resource_exhausted) []
          else o)
        (returned c (refused invalid_param) [])
        (if not c.initialized
          then returned c (refused not_initialized) []
          else if ltb 256 n
          then returned c (refused resource_exhausted) []
          else o')
        refl (refl, d, λ _. refl) unready)
