-- ===== src/Voter/Readings.antt =====
-- What the channels of a receive round give, apart from how rte_voter_receive counts it.
use platform_rte.Prelude.{
  ℕ, ◌+◌, ◌≡◌, refl, sym, ◌∙◌, ap, subst, List, [], ◌∷◌, ◌++◌, map, Option, none, some, Bool, true,
  false, ◌||◌, if◌then◌else◌, arith, Bool-cases, inl, inr,
}
use mathlib.Core.List.{append-nil, append_assoc}
use platform_rte.Platform.Status.{Status, is_ok, is_timeout}
use platform_rte.Channel.{Channel, Transport, receive}
use platform_rte.Voter.Grouping.{Response}
use platform_rte.Voter.Receive.{
  Machine, Polled, poll_one, poll, start, update, is_healthy, count_healthy,
}

-- How many elements pass a test.
abbrev pub number {ℓ} : {A : Type ℓ} → (A → Bool) → List A → ℕ
number f [] = 0
number f (x ∷ xs) = (if f x then 1 else 0) + number f xs

-- A receive gives a status and bytes; a channel that is not read gives nothing.
abbrev pub Reading : Type 0
Reading = Option (Status × List ℕ)

abbrev pub response_of : Reading → Response
response_of none = none
response_of (some (status, bytes)) = if is_ok status then some bytes else none

abbrev pub responded : Reading → Bool
responded none = false
responded (some (status, bytes)) = is_ok status

abbrev pub one_timed_out : List Reading → Bool
one_timed_out [] = false
one_timed_out (none ∷ gs) = one_timed_out gs
one_timed_out (some (status, bytes) ∷ gs) = is_timeout status || one_timed_out gs

module _ {W : Type 0} (t : Transport W) (size ms : ℕ) where
  -- The channels are taken in order. One that is not healthy is left alone; one that is healthy is read
  -- once, which changes it and the transport.
  pub data Listens : Machine W → List ℕ → List Reading → Machine W → Type 0 where
    done : (m : Machine W) → Listens m [] [] m
    skips :
        (m m' : Machine W) (a : ℕ) (as' : List ℕ) (gs : List Reading)
        → is_healthy m.store a ≡ false
        → Listens m as' gs m'
        → Listens m (a ∷ as') (none ∷ gs) m'
    reads :
        (m m' : Machine W) (a : ℕ) (as' : List ℕ) (gs : List Reading)
        → is_healthy m.store a ≡ true
        → Listens
            (record {
              store = update m.store a (receive t m.world (m.store a) size ms).2;
              world = (receive t m.world (m.store a) size ms).3;
            })
            as'
            gs
            m'
        → Listens m
            (a ∷ as')
            (some (
              (receive t m.world (m.store a) size ms).0,
              (receive t m.world (m.store a) size ms).1,
            )
              ∷ gs)
            m'

  -- The variables of a round after these readings.
  abbrev Tallied : Polled W → List ℕ → Polled W → Type 0
  Tallied pl as' pl' =
      (gs : List Reading) × Listens pl.machine as' gs pl'.machine
      × (pl'.responses ≡ pl.responses ++ map response_of gs)
      × (pl'.successful ≡ pl.successful + number responded gs)
      × (pl'.saw_timeout ≡ (one_timed_out gs || pl.saw_timeout))

  -- A round on a healthy channel, and one on a channel that is not.
  abbrev read_one : Polled W → ℕ → Polled W
  read_one pl a =
      let (st, bytes, c, w) = receive t pl.machine.world (pl.machine.store a) size ms in
      record {
        machine = record { store = update pl.machine.store a c; world = w };
        responses = pl.responses ++ (if is_ok st then some bytes else none) ∷ [];
        successful = if is_ok st then pl.successful + 1 else pl.successful;
        saw_timeout = is_timeout st || pl.saw_timeout;
      }

  abbrev skip_one : Polled W → Polled W
  skip_one pl = record pl { responses = pl.responses ++ none ∷ [] }

  read_one-Tallied :
      (pl pl' : Polled W) (a : ℕ) (as' : List ℕ)
      → is_healthy pl.machine.store a ≡ true
      → Tallied (read_one pl a) as' pl'
      → Tallied pl (a ∷ as') pl'
  read_one-Tallied pl pl' a as' up (gs, l, r, s, q) =
      let (st, bytes, c, w) = receive t pl.machine.world (pl.machine.store a) size ms in
      (
        some (st, bytes) ∷ gs,
        reads pl.machine pl'.machine a as' gs up l,
        r ∙ append_assoc pl.responses (response_of (some (st, bytes)) ∷ []) (map response_of gs),
        ground (arith, s),
        ground (arith, q),
      )

  skip_one-Tallied :
      (pl pl' : Polled W) (a : ℕ) (as' : List ℕ)
      → is_healthy pl.machine.store a ≡ false
      → Tallied (skip_one pl) as' pl'
      → Tallied pl (a ∷ as') pl'
  skip_one-Tallied pl pl' a as' down (gs, l, r, s, q) = (
    none ∷ gs,
    skips pl.machine pl'.machine a as' gs down l,
    r ∙ append_assoc pl.responses (none ∷ []) (map response_of gs),
    omega (arith, s),
    q,
  )

  poll_one_up :
      (pl : Polled W) (a : ℕ)
      → is_healthy pl.machine.store a ≡ true
      → poll_one t size ms pl a ≡ read_one pl a
  unfolding poll_one
  poll_one_up pl a up = rw up refl

  poll_one_down :
      (pl : Polled W) (a : ℕ)
      → is_healthy pl.machine.store a ≡ false
      → poll_one t size ms pl a ≡ skip_one pl
  unfolding poll_one
  poll_one_down pl a down = rw down refl

  poll-Tallied : (pl : Polled W) (as' : List ℕ) → Tallied pl as' (poll t size ms pl as')
  unfolding poll
  poll-Tallied pl [] = ([], done pl.machine, sym (append-nil _), ground arith, refl)
  poll-Tallied pl (a ∷ as') =
      let pl' = poll t size ms (poll_one t size ms pl a) as' in
      let rest = poll-Tallied (poll_one t size ms pl a) as' in
      elim (Bool-cases (is_healthy pl.machine.store a)) [
        | inl up ↦
            read_one-Tallied pl pl' a as' up
              (subst (λ (x : Polled W). Tallied x as' pl') (poll_one_up pl a up) rest)
        | inr down ↦
            skip_one-Tallied pl pl' a as' down
              (subst (λ (x : Polled W). Tallied x as' pl') (poll_one_down pl a down) rest)
      ]

  -- A round that starts with nothing counts what the channels give.
  abbrev pub Counts : Machine W → List ℕ → Polled W → Type 0
  Counts m as' pl =
      (gs : List Reading) × Listens m as' gs pl.machine
      × (pl.responses ≡ map response_of gs)
      × (pl.successful ≡ number responded gs)
      × (pl.saw_timeout ≡ one_timed_out gs)

  pub poll-Counts : (m : Machine W) (as' : List ℕ) → Counts m as' (poll t size ms (start m) as')
  poll-Counts m as' =
      let (gs, l, r, s, q) = poll-Tallied (start m) as' in
      (gs, l, r, omega (arith, s), ground (arith, q))

pub count_healthy-number :
    (store : ℕ → Channel) (as' : List ℕ) → count_healthy store as' ≡ number (is_healthy store) as'
unfolding count_healthy
count_healthy-number store [] = refl
count_healthy-number store (a ∷ as') =
    ap (λ n. (if is_healthy store a then 1 else 0) + n) (count_healthy-number store as')
