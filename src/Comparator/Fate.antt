-- ===== src/Comparator/Fate.antt =====
-- What a caller of `rte_cross_comparator_execute` may rely on.
use platform_rte.Prelude.{
  ℕ, ◌+◌, ◌≤◌, ◌≡◌, ◌≢◌, ◌⊎◌, inl, inr, refl, sym, subst, List, [], ◌++◌, none, some, true, false,
  arith, u32, Bool-cases,
}
use platform_rte.Platform.Status.{Status, ok, hardware_fault, timeout}
use platform_rte.Platform.Safestate.{degraded, Event, called, logged, Platform, enter}
use platform_rte.Channel.{Channel, Transport, receive}
use platform_rte.Voter.Types.{VotingResult}
use platform_rte.Voter.Vote.{Reply, Voted, returned, when}
use platform_rte.Voter.Receive.{Machine, update, is_healthy}
use platform_rte.Comparator.{
  Comparator, both, data_equal, react, finish, judge, compare_channels, execute,
}

-- The call fails with a result, changes nothing and tells the application.
abbrev pub Failed : Comparator → Voted Comparator → VotingResult → Type 0
Failed c o r =
    o
    ≡ returned c (record { status = hardware_fault; result = some r; bytes = none; size = some 0 })
        (when c.config.on_disagreement (called r))

-- The call succeeds with the bytes, changes nothing and tells nobody.
abbrev pub Delivered : Comparator → Voted Comparator → List ℕ → ℕ → Type 0
Delivered c o bytes n =
    o
    ≡ returned c
        (record {
          status = ok;
          result = some VotingResult.agreed;
          bytes = some bytes;
          size = some n;
        })
        []

-- The disagreement is counted; the application, if it registered a callback, is told, and then the
-- safe state is entered, from which control comes back only at the level DEGRADED, with a failure.
pub record Stopped (p : Platform) (c : Comparator) (o : Voted Comparator) : Type 0 where
  pub counted : o.state ≡ record c { total_disagreements = u32 (c.total_disagreements + 1) }
  pub halts : c.config.safestate_level ≢ degraded → o.result ≡ none
  pub fails :
      (r : Reply)
      → o.result ≡ some r
      → (r.status ≡ hardware_fault) × (r.result ≡ some VotingResult.disagreed) × (r.bytes ≡ none)
  pub told :
      (before : List (Event VotingResult)) × (o.trace
        ≡ before
          ++ (when c.config.on_disagreement (called VotingResult.disagreed)
              ++ (enter p c.config.safestate_level c.config.safestate_reason).1))

pub react-Stopped : (p : Platform) (c : Comparator) → Stopped p c (react p c)
unfolding react
react-Stopped p c = record {
  counted = refl;
  halts = λ h. ground arith;
  fails = λ r h. ground arith;
  told = (when c.config.log_disagreements (logged "channels disagreed"), refl);
}

-- What two statuses and two messages amount to.
abbrev pub Judged :
    Platform → Comparator → Voted Comparator → ℕ → Status → Status → List ℕ → List ℕ → Type 0
Judged p c o n st_a st_b a b =
    (((st_a ≡ timeout) ⊎ (st_b ≡ timeout)) × Failed c o VotingResult.timeout)
    ⊎ ((st_a ≢ timeout)
        × (st_b ≢ timeout)
        × ((st_a ≢ ok) ⊎ (st_b ≢ ok))
        × Failed c o VotingResult.insufficient_quorum)
    ⊎ ((st_a ≡ ok) × (st_b ≡ ok) × (data_equal c.config a b ≡ true) × Delivered c o a n)
    ⊎ ((st_a ≡ ok) × (st_b ≡ ok) × (data_equal c.config a b ≡ false) × Stopped p c o)

judge-Judged :
    (p : Platform) (c : Comparator) (n : ℕ) (st_a st_b : Status) (a b : List ℕ)
    → Judged p c (finish p c (judge c.config st_a st_b a b) a n) n st_a st_b a b
unfolding judge finish
judge-Judged p c n st_a st_b a b = elim (Bool-cases (data_equal c.config a b)) [
  | inl h ↦ ground (arith, h)
  | inr h ↦ ground (arith, h, react-Stopped p c)
]

module _ {W : Type 0} (t : Transport W) where
  -- The two receives of a round: the status, the bytes, the channel and the world after each.
  abbrev pub first : Comparator → Machine W → ℕ → ℕ → Status × List ℕ × Channel × W
  first c m n a = receive t m.world (m.store a) n c.config.channel_timeout_ms

  abbrev pub second : Comparator → Machine W → ℕ → ℕ → ℕ → Status × List ℕ × Channel × W
  second c m n a b =
      receive t (first c m n a).3 (update m.store a (first c m n a).2 b) n
        c.config.channel_timeout_ms

  -- The machine after both receives.
  abbrev pub after_both : Comparator → Machine W → ℕ → ℕ → ℕ → Machine W
  after_both c m n a b = record {
    store = update (update m.store a (first c m n a).2) b (second c m n a b).2;
    world = (second c m n a b).3;
  }

  abbrev pub Fate :
      Platform → Comparator → Machine W → ℕ → ℕ → ℕ → Voted Comparator × Machine W → Type 0
  Fate p c m n a b (o, m') =
      (((is_healthy m.store a ≡ false) ⊎ (is_healthy m.store b ≡ false))
        × (m' ≡ m)
        × Failed c o VotingResult.insufficient_quorum)
      ⊎ ((is_healthy m.store a ≡ true)
          × (is_healthy m.store b ≡ true)
          × (m' ≡ after_both c m n a b)
          × Judged p c o n (first c m n a).0 (second c m n a b).0 (first c m n a).1
              (second c m n a b).1)

  compare_healthy :
      (p : Platform) (c : Comparator) (m : Machine W) (n a b : ℕ)
      → is_healthy m.store a ≡ true
      → is_healthy m.store b ≡ true
      → (compare_channels t p c m n a b).0
        ≡ finish p c
            (judge c.config
              (first c m n a).0
              (second c m n a b).0
              (first c m n a).1
              (second c m n a b).1)
            (first c m n a).1
            n
  unfolding compare_channels
  compare_healthy p c m n a b h k = ground (arith, h, k)

  compare_machine :
      (p : Platform) (c : Comparator) (m : Machine W) (n a b : ℕ)
      → is_healthy m.store a ≡ true
      → is_healthy m.store b ≡ true
      → (compare_channels t p c m n a b).1 ≡ after_both c m n a b
  unfolding compare_channels
  compare_machine p c m n a b h k = ground (arith, h, k)

  compare_unhealthy :
      (p : Platform) (c : Comparator) (m : Machine W) (n a b : ℕ)
      → (is_healthy m.store a ≡ false) ⊎ (is_healthy m.store b ≡ false)
      → Fate p c m n a b (compare_channels t p c m n a b)
  unfolding compare_channels finish
  compare_unhealthy p c m n a b h = inl (h, ground (arith, h), ground (arith, h))

  compare_channels-Fate :
      (p : Platform) (c : Comparator) (m : Machine W) (n a b : ℕ)
      → Fate p c m n a b (compare_channels t p c m n a b)
  compare_channels-Fate p c m n a b = elim (Bool-cases (is_healthy m.store a)) [
    | inr h ↦ compare_unhealthy p c m n a b (inl h)
    | inl h ↦ elim (Bool-cases (is_healthy m.store b)) [
      | inr k ↦ compare_unhealthy p c m n a b (inr k)
      | inl k ↦ inr (
        h,
        k,
        compare_machine p c m n a b h k,
        subst
            (λ o.
              Judged p c o n (first c m n a).0 (second c m n a b).0 (first c m n a).1
                (second c m n a b).1)
            (sym (compare_healthy p c m n a b h k))
            (judge-Judged p c n (first c m n a).0 (second c m n a b).0 (first c m n a).1
              (second c m n a b).1),
      )
    ]
  ]

  execute_valid :
      (p : Platform) (c : Comparator) (m : Machine W) (n a b : ℕ)
      → c.initialized ≡ true
      → c.registered ≡ both a b
      → 1 ≤ n
      → n ≤ 256
      → execute t p c m n ≡ compare_channels t p c m n a b
  unfolding execute
  execute_valid p c m n a b i r l u = ground arith

  -- A comparison of two registered channels, with a valid size. If one of them is not healthy it reads
  -- neither and fails; otherwise it reads both, the first registered first, and leaves the channels and the
  -- transport as these two receives do; and it fails with TIMEOUT if one timed out, fails if one
  -- failed, delivers the first channel's data without any other effect if the data are the same, and stops
  -- if they differ.
  pub execute-Fate :
      (p : Platform) (c : Comparator) (m : Machine W) (n a b : ℕ)
      → c.initialized ≡ true
      → c.registered ≡ both a b
      → 1 ≤ n
      → n ≤ 256
      → Fate p c m n a b (execute t p c m n)
  unfolding execute
  execute-Fate p c m n a b i r l u =
      subst (Fate p c m n a b) (sym (execute_valid p c m n a b i r l u))
        (compare_channels-Fate p c m n a b)
