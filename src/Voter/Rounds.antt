-- ===== src/Voter/Rounds.antt =====
-- What a caller of `rte_voter_receive` may rely on, on every branch behind the argument checks.
use platform_rte.Prelude.{
  ℕ, ◌≤◌, ◌<◌, ◌≡◌, refl, sym, inl, inr, List, [], ◌∷◌, ◌++◌, map, none, some, false, arith,
  if◌then◌else◌, Bool-cases, ◌==◌, ◌&&◌, ◌∙◌, ap,
}
use mathlib.Core.List.{append-nil, append_assoc}
use platform_rte.Platform.Status.{hardware_fault, is_ok}
use platform_rte.Platform.Safestate.{called, Platform}
use platform_rte.Channel.{Channel, Transport, receive}
use platform_rte.Voter.Types.{VotingResult, Voter, required_quorum, data_equal, IsEquivalence}
use platform_rte.Voter.Grouping.{Response}
use platform_rte.Voter.Vote.{Voted, returned, when}
use platform_rte.Voter.Receive.{Machine, Polled, poll_one, poll, start, is_healthy}
use platform_rte.Voter.Readings.{Reading, response_of, responded, one_timed_out, number, Listens}
use platform_rte.Voter.Reaction.{Stopped, HasQuorum, NoQuorum, delivered}

-- One response for each channel, and none from a channel that was not healthy.
abbrev pub Heard : (ℕ → Channel) → List ℕ → List Response → Type 0
Heard store [] [] = Unit
Heard store [] (r ∷ rs) = ⊥
Heard store (a ∷ as') [] = ⊥
Heard store (a ∷ as') (r ∷ rs) = (is_healthy store a ≡ false → r ≡ none) × Heard store as' rs

-- A call that fails without a disagreement: the callback, if there is one, is all that happens.
abbrev pub failed : Voter → VotingResult → Voted Voter
failed v result =
    returned v
      (record { status = hardware_fault; result = some result; bytes = none; size = some 0 })
      (when v.config.on_disagreement (called result))

module _ {W : Type 0} (t : Transport W) where
  -- Receiving does not change which channels are healthy.
  receive-is_healthy :
      (w : W) (c : Channel) (size ms : ℕ)
      → (receive t w c size ms).2.health.is_healthy ≡ c.health.is_healthy
  unfolding receive
  receive-is_healthy w c size ms = ground arith

  poll_one-is_healthy :
      (size ms : ℕ) (pl : Polled W) (a b : ℕ)
      → is_healthy (poll_one t size ms pl a).machine.store b ≡ is_healthy pl.machine.store b
  unfolding poll_one
  poll_one-is_healthy size ms pl a b =
      ground (arith, receive-is_healthy pl.machine.world (pl.machine.store a) size ms)

  poll_one-responses :
      (size ms : ℕ) (pl : Polled W) (a : ℕ)
      → (r : Response) × ((poll_one t size ms pl a).responses ≡ pl.responses ++ r ∷ [])
        × (is_healthy pl.machine.store a ≡ false → r ≡ none)
  unfolding poll_one
  poll_one-responses size ms pl a = elim (Bool-cases (is_healthy pl.machine.store a)) [
    | inl up ↦ (
      (let (st, bytes, _, _) = receive t pl.machine.world (pl.machine.store a) size ms in
          if is_ok st then some bytes else none),
      rw (up, poll_one) refl,
      λ down. ground arith,
    )
    | inr down ↦ (none, rw (down, poll_one) refl, λ _. refl)
  ]

  Heard-same :
      (f g : ℕ → Channel) (as' : List ℕ) (rs : List Response)
      → ((b : ℕ) → is_healthy g b ≡ is_healthy f b)
      → Heard g as' rs
      → Heard f as' rs
  Heard-same f g [] [] e h = tt
  Heard-same f g [] (r ∷ rs) e h = h
  Heard-same f g (a ∷ as') [] e h = h
  Heard-same f g (a ∷ as') (r ∷ rs) e h = (λ down. h.0 (e a ∙ down), Heard-same f g as' rs e h.1)

  poll-Heard :
      (size ms : ℕ) (pl : Polled W) (as' : List ℕ)
      → (rs : List Response) × ((poll t size ms pl as').responses ≡ pl.responses ++ rs)
        × Heard pl.machine.store as' rs
  unfolding poll
  poll-Heard size ms pl [] = ([], sym (append-nil _), tt)
  poll-Heard size ms pl (a ∷ as') =
      let (r, one, silent) = poll_one-responses size ms pl a in
      let (rs, rest, heard) = poll-Heard size ms (poll_one t size ms pl a) as' in
      (
        r ∷ rs,
        rest ∙ ap (λ xs. xs ++ rs) one ∙ append_assoc pl.responses (r ∷ []) rs,
        (
          silent,
          Heard-same pl.machine.store (poll_one t size ms pl a).machine.store as' rs
              (poll_one-is_healthy size ms pl a) heard,
        ),
      )

  -- A receive round collects one response for each registered channel, in their order, and none from
  -- a channel that was not healthy when the round began.
  pub unhealthy_never_votes :
      (size ms : ℕ) (m : Machine W) (channels : List ℕ)
      → Heard m.store channels (poll t size ms (start m) channels).responses
  unhealthy_never_votes size ms m channels =
      let (rs, all, heard) = poll-Heard size ms (start m) channels in rw all heard

  -- What a receive round may do, by what the channels give when they are read in order.
  pub data RoundFate (p : Platform) (v : Voter) (m : Machine W) (size : ℕ)
      : Voted Voter × Machine W → Type 0 where
    -- Too few healthy channels: no channel is read, and the call fails.
    too_few :
        number (is_healthy m.store) v.channels < required_quorum v.config
        → RoundFate p v m size (failed v VotingResult.insufficient_quorum, m)
    -- Too few responses: the call fails, with TIMEOUT if there was none at all and one timed out.
    unanswered :
        (gs : List Reading) (m' : Machine W)
        → required_quorum v.config ≤ number (is_healthy m.store) v.channels
        → Listens t size v.config.channel_timeout_ms m v.channels gs m'
        → number responded gs < required_quorum v.config
        → RoundFate p v m size (
          failed v (
              if number responded gs == 0 && one_timed_out gs
              then VotingResult.timeout
              else VotingResult.insufficient_quorum),
          m',
        )
    -- The data of a quorum of the channels is delivered, with no other effect.
    agrees :
        (gs : List Reading) (m' : Machine W)
        → Listens t size v.config.channel_timeout_ms m v.channels gs m'
        → (d : List ℕ) → HasQuorum v.config (map response_of gs) d
        → RoundFate p v m size (returned v (delivered d size) [], m')
    -- Enough responses, but no data has a quorum: the call stops.
    disagrees :
        (gs : List Reading) (m' : Machine W)
        → required_quorum v.config ≤ number responded gs
        → Listens t size v.config.channel_timeout_ms m v.channels gs m'
        → NoQuorum v.config (map response_of gs)
        → (o : Voted Voter) → Stopped p v o
        → RoundFate p v m size (o, m')

  module _ (p : Platform) (v : Voter) (m : Machine W) (size : ℕ)
      (eqv : IsEquivalence (data_equal v.config)) (q : 1 ≤ required_quorum v.config)
      (healthy : required_quorum v.config ≤ number (is_healthy m.store) v.channels) (pl : Polled W)
      (gs : List Reading)
      (l : Listens t size v.config.channel_timeout_ms m v.channels gs pl.machine)
      (given : pl.responses ≡ map response_of gs) (counted : pl.successful ≡ number responded gs)
      (late : pl.saw_timeout ≡ one_timed_out gs) where
    -- `local_result` where too few channels responded.
    abbrev silence : VotingResult
    silence =
        if number responded gs == 0 && one_timed_out gs
        then VotingResult.timeout
        else VotingResult.insufficient_quorum
