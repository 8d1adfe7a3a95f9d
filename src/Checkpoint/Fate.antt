-- ===== src/Checkpoint/Fate.antt =====
-- Which channels confirmed in the rounds of a rendezvous. How it ends is in Ends.
pub mod Ends
use platform_rte.Prelude.{
  ℕ, zero, suc, ◌+◌, ◌≤◌, ◌≡◌, inl, inr, refl, sym, ap, subst, ◌∙◌, List, [], ◌∷◌, Bool, true,
  false, length, All, arith, Bool-cases, Option-cases,
}
use platform_rte.Channel.{Channel, Transport}
use platform_rte.Checksum.{ChecksumManager}
use platform_rte.Watchdog.{Reading, kick}
use platform_rte.Checkpoint.Managers.{Alike}
use platform_rte.Checkpoint.Receipts.{Recorder, Later, Later-trans}
use platform_rte.Checkpoint.Answers.{Answered-Later, all-Later}
use platform_rte.Checkpoint.Rounds.{
  Meeting, Plan, read_clock, try_channel, count_confirmed, round, kick_watchdog, end_round, goes_on,
  rounds,
}
use platform_rte.Checkpoint.Tries.{Same, Replied, Tried, read_clock-Since, try_channel-Tried}

-- The channels whose flag is set.
abbrev pub picked : List ℕ → List Bool → List ℕ
picked [] fs = []
picked (a ∷ as') [] = []
picked (a ∷ as') (true ∷ fs) = a ∷ picked as' fs
picked (a ∷ as') (false ∷ fs) = picked as' fs

module _ {W : Type 0} (bytes_of : ℕ → ℕ → List ℕ) (value_of : List ℕ → ℕ) (t : Transport W)
    (clock : W → Reading × W) (rec : Recorder t clock) (base : ℕ → Channel) (m : ChecksumManager)
    (from : W) (p : Plan) where
  -- What a round leaves.
  abbrev Rounded : List ℕ → List Bool → Meeting W → List Bool × Meeting W → Type 0
  Rounded as' fs v (fs', v') =
      Same bytes_of value_of t clock rec base m from p v'
      × (v'.confirmed_count + length (picked as' fs) ≡ v.confirmed_count + length (picked as' fs'))
      × Later t clock rec v.site.world v'.site.world
      × All (Replied bytes_of value_of t clock rec base m from p v'.site.world) (picked as' fs')
      × (length fs' ≡ length fs)

  abbrev counted : Bool × Meeting W → Meeting W
  counted o = count_confirmed o

  count-Tried :
      (a : ℕ) (v : Meeting W) (o : Bool × Meeting W)
      → Tried bytes_of value_of t clock rec base m from p a v o
      → Same bytes_of value_of t clock rec base m from p (counted o)
        × Later t clock rec v.site.world (counted o).site.world
  count-Tried a v (true, v') (s, e, on, x) = (s, on)
  count-Tried a v (false, v') (s, e, on, x) = (s, on)

  one_more :
      (a : ℕ) (as' : List ℕ) (fs : List Bool) (v : Meeting W) (o : Bool × Meeting W)
      (r : List Bool × Meeting W)
      → Tried bytes_of value_of t clock rec base m from p a v o
      → Rounded as' fs (counted o) r
      → Rounded (a ∷ as') (false ∷ fs) v (o.0 ∷ r.0, r.1)
  one_more a as' fs v (true, v') r (s, e, on, x) (s', e', on', ks, n) = (
    s',
    omega (arith, e, e'),
    Later-trans t clock rec v.site.world v'.site.world r.1.site.world on on',
    (
      Answered-Later bytes_of value_of t clock rec base m p.config.checkpoint_id from v'.site.world
          r.1.site.world a on' (x refl),
      ks,
    ),
    omega (arith, n),
  )
  one_more a as' fs v (false, v') r (s, e, on, x) (s', e', on', ks, n) = (
    s',
    omega (arith, e, e'),
    Later-trans t clock rec v.site.world v'.site.world r.1.site.world on on',
    ks,
    omega (arith, n),
  )

  abbrev still :
      (w w' : W) (as' : List ℕ)
      → Later t clock rec w w'
      → All (Replied bytes_of value_of t clock rec base m from p w) as'
      → All (Replied bytes_of value_of t clock rec base m from p w') as'
  still w w' as' on ks =
      all-Later bytes_of value_of t clock rec base m p.config.checkpoint_id from w w' as' on ks

  round-Rounded :
      (as' : List ℕ) (fs : List Bool) (v : Meeting W)
      → length as' ≤ length fs
      → Same bytes_of value_of t clock rec base m from p v
      → All (Replied bytes_of value_of t clock rec base m from p v.site.world) (picked as' fs)
      → Rounded as' fs v (round bytes_of value_of t clock p as' fs v)
  unfolding round
  round-Rounded [] fs v l h k = (h, refl, ([], refl), k, refl)
  round-Rounded (a ∷ as') [] v l h k = absurd (omega (arith, l))
  round-Rounded (a ∷ as') (true ∷ fs) v l h (x, k) =
      let (s, e, on, ks, n) = round-Rounded as' fs v (omega (arith, l)) h k in
      (
        s,
        omega (arith, e),
        on,
        (
          Answered-Later bytes_of value_of t clock rec base m p.config.checkpoint_id from
              v.site.world _ a on x,
          ks,
        ),
        omega (arith, n),
      )
  round-Rounded (a ∷ as') (false ∷ fs) v l h k =
      let o = try_channel bytes_of value_of t clock p a v in
      let tried = try_channel-Tried bytes_of value_of t clock rec base m from p a v h in
      let (s, on) = count-Tried a v o tried in
      one_more a as' fs v o (round bytes_of value_of t clock p as' fs (counted o)) tried (
        round-Rounded as' fs (counted o) (omega (arith, l)) s
          (still v.site.world (counted o).site.world (picked as' fs) on k))

  -- A meeting that only read the clock, as the kick of the watchdog does.
  abbrev pub Idle : Meeting W → Meeting W → Type 0
  Idle v v' =
      (v'.site.store ≡ v.site.store)
      × (v'.site.checksum ≡ v.site.checksum)
      × (v'.confirmed_count ≡ v.confirmed_count)
      × Later t clock rec v.site.world v'.site.world

  pub kick_watchdog-Idle :
      (v : Meeting W) → Idle v (kick_watchdog bytes_of value_of t clock p.config v)
  unfolding kick_watchdog
  kick_watchdog-Idle v = elim (Option-cases p.config.watchdog) [
    | inl e ↦ rw e (refl, refl, refl, ([], refl))
    | inr (w, e) ↦ rw e (refl, refl, refl, ([], rec.reads v.site.world))
  ]

  end_round-Idle : (v : Meeting W) → Idle v (end_round bytes_of value_of t clock p v)
  unfolding end_round
  end_round-Idle v =
      let (now_ms, w) = read_clock bytes_of value_of t clock v.now_ms v.site.world in
      let (a, b, c, on) =
        kick_watchdog-Idle (record v { site = record (v.site) { world = w }; now_ms = now_ms }) in
      (
        a,
        b,
        c,
        Later-trans t clock rec v.site.world w _
            (read_clock-Since bytes_of value_of t clock rec base m from p v.now_ms v.site.world) on,
      )

  Idle-Same :
      (v v' : Meeting W)
      → Idle v v'
      → Same bytes_of value_of t clock rec base m from p v
      → Same bytes_of value_of t clock rec base m from p v'
  Idle-Same v v' (a, b, c, on) (h, alike, since) = (
    λ x. ap (λ (f : ℕ → Channel). (f x).config) a ∙ h x,
    subst (Alike m) (sym b) alike,
    Later-trans t clock rec from v.site.world v'.site.world since on,
  )

  -- The channels whose flag is set are those that confirmed.
  abbrev pub Kept : List ℕ → List Bool × Meeting W → Type 0
  Kept as' (fs, v) =
      (v.confirmed_count ≡ length (picked as' fs))
      × All (Replied bytes_of value_of t clock rec base m from p v.site.world) (picked as' fs)

  pub Idle-Kept :
      (as' : List ℕ) (fs : List Bool) (v v' : Meeting W)
      → Idle v v'
      → Kept as' (fs, v)
      → Kept as' (fs, v')
  Idle-Kept as' fs v v' (a, b, c, on) (e, k) =
      (c ∙ e, still v.site.world v'.site.world (picked as' fs) on k)

  pub rounds-Kept :
      (as' : List ℕ) (n : ℕ) (fs : List Bool) (v : Meeting W)
      → length as' ≤ length fs
      → Same bytes_of value_of t clock rec base m from p v
      → Kept as' (fs, v)
      → Kept as' (rounds bytes_of value_of t clock p as' n fs v)
  unfolding rounds
  rounds-Kept as' zero fs v l h k = k
  rounds-Kept as' (suc n) fs v l h (e, k) = elim (Bool-cases (goes_on p v)) [
    | inl g ↦
        let r = round bytes_of value_of t clock p as' fs v in
        let (s, e', on, k', m') = round-Rounded as' fs v l h k in
        let idle = end_round-Idle r.1 in
        let v' = end_round bytes_of value_of t clock p r.1 in
        rw g (
          rounds-Kept as' n r.0 v' (omega (arith, l, m')) (Idle-Same r.1 v' idle s)
            (Idle-Kept as' r.0 r.1 v' idle (omega (arith, e, e'), k')))
    | inr g ↦ rw g (e, k)
  ]
