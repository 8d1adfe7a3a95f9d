-- ===== src/SiteRole/Cycle/Startup.antt =====
-- The start of the service: that its loops end, and what role it ends in.
use platform_rte.Prelude.{
  ℕ, zero, suc, ◌+◌, ◌-◌, ◌*◌, ◌^◌, ◌≤◌, ◌<◌, ◌≡◌, refl, sym, ap, subst, ◌∙◌, ◌⊎◌, inl, inr, List,
  [], Option, some, Bool, true, false, ◌&&◌, arith, ltb, u32, if◌then◌else◌, if_true, if_false,
  Bool-cases,
}
use platform_rte.Platform.Status.{Status, ok, timeout, is_ok}
use platform_rte.Dual.Types.{idle}
use platform_rte.Dual.Negotiator
use platform_rte.Dual.Negotiator.{Negotiator, Round, same_state, initialised}
use platform_rte.SiteRole.Types.{SiteRole, Config, Event}
use platform_rte.SiteRole.Link.{
  connect_loop, open_link_blocking, init_channel_and_negotiator, with_negotiator, negotiator_config,
  close_link,
}
use platform_rte.SiteRole.Cycle.{
  settle_loop, settle, settled, after_loop, negotiate, after_opening, prepared, start, Start,
}

-- What the attempts to connect, from a number on, come to: the first that is made before the time is
-- up and succeeds, or, if none does, TIMEOUT.
abbrev pub ConnectFate : (ℕ → Status) → ℕ → ℕ → ℕ → Option Status → Type 0
ConnectFate attempts retry bound i r =
    ((k : ℕ) × (i ≤ k)
      × (k * retry < bound)
      × (is_ok (attempts k) ≡ true)
      × ((j : ℕ) → i ≤ j → j < k → is_ok (attempts j) ≡ false)
      × (r ≡ some ok))
    ⊎ (((j : ℕ) → i ≤ j → j * retry < bound → is_ok (attempts j) ≡ false) × (r ≡ some timeout))

eq_or_lt : (i j : ℕ) → i ≤ j → (i ≡ j) ⊎ (i + 1 ≤ j)
eq_or_lt i j h = elim (Bool-cases (ltb i j)) [
  | inl lt ↦ inr (ground arith)
  | inr not_lt ↦ inl (ground arith)
]

from_here :
    (attempts : ℕ → Status) (i j : ℕ)
    → is_ok (attempts i) ≡ false
    → i ≤ j
    → (i + 1 ≤ j → is_ok (attempts j) ≡ false)
    → is_ok (attempts j) ≡ false
from_here attempts i j failed le rest = elim (eq_or_lt i j le) [
  | inl e ↦ subst (λ (k : ℕ). is_ok (attempts k) ≡ false) e failed
  | inr more ↦ rest more
]

add_one_mul : (i r : ℕ) → (i + 1) * r ≡ i * r + r
add_one_mul i r = grind arith

mul_mono : (i j r : ℕ) → i ≤ j → i * r ≤ j * r
mul_mono i j r h = grind arith

later :
    (attempts : ℕ → Status) (retry bound i : ℕ) (r : Option Status)
    → is_ok (attempts i) ≡ false
    → ConnectFate attempts retry bound (i + 1) r
    → ConnectFate attempts retry bound i r
later attempts retry bound i r failed (inl (k, le, lt, good, before, e)) =
    inl (k, omega arith, lt, good, λ j a b. from_here attempts i j failed a (λ m. before j m b), e)
later attempts retry bound i r failed (inr (never, e)) =
    inr (λ j a b. from_here attempts i j failed a (λ m. never j m b), e)

-- One turn of the loop.
connect_turn :
    (attempts : ℕ → Status) (retry bound i : ℕ) (rest : Option Status)
    → (i * retry < bound → ConnectFate attempts retry bound (i + 1) rest)
    → ConnectFate attempts retry bound i (
        if ltb (i * retry) bound
        then (if is_ok (attempts i) then some ok else rest)
        else some timeout)
connect_turn attempts retry bound i rest f = elim (Bool-cases (ltb (i * retry) bound)) [
  | inl lt ↦ elim (Bool-cases (is_ok (attempts i))) [
    | inl good ↦
        rw (lt, good)
          (inl (i, omega arith, ground arith, good, λ j a b. absurd (omega arith), refl))
    | inr bad ↦ rw (lt, bad) (later attempts retry bound i rest bad (f (ground arith)))
  ]
  | inr over ↦
      let up : bound ≤ i * retry = ground arith in
      rw over (inr (λ j a b. absurd (omega (arith, mul_mono i j retry a)), refl))
]

connect_loop-ConnectFate :
    (attempts : ℕ → Status) (retry bound fuel i : ℕ)
    → 0 < retry
    → bound + retry < 2 ^ 32
    → bound - i * retry < fuel
    → ConnectFate attempts retry bound i (connect_loop attempts retry bound fuel (i * retry) i)
unfolding connect_loop
connect_loop-ConnectFate attempts retry bound zero i pos small enough = absurd (omega arith)
connect_loop-ConnectFate attempts retry bound (suc fuel) i pos small enough =
    connect_turn attempts retry bound i
      (connect_loop attempts retry bound fuel (u32 (i * retry + retry)) (i + 1))
      (λ lt.
        let wrapped : (i + 1) * retry ≡ u32 (i * retry + retry) =
          let e = add_one_mul i retry in omega arith in
        subst
          (λ (w : ℕ).
            ConnectFate attempts retry bound (i + 1)
              (connect_loop attempts retry bound fuel w (i + 1)))
          wrapped
          (connect_loop-ConnectFate attempts retry bound fuel (i + 1) pos small
            (omega (arith, add_one_mul i retry))))

-- The connecting side makes attempts at intervals until one succeeds or the start-up time is over. If
-- the interval is not 0 and time does not wrap, fuel above the start-up time is enough: it gives OK with
-- the first attempt in time that succeeds, and TIMEOUT if there is none.
pub open_link_blocking-ConnectFate :
    (rs : SiteRole) (attempts : ℕ → Status) (fuel : ℕ)
    → rs.cfg.listen ≡ false
    → 0 < rs.cfg.connect_retry_ms
    → rs.cfg.startup_timeout_ms + rs.cfg.connect_retry_ms < 2 ^ 32
    → rs.cfg.startup_timeout_ms < fuel
    → ConnectFate attempts rs.cfg.connect_retry_ms rs.cfg.startup_timeout_ms 0
        (open_link_blocking fuel rs attempts)
unfolding open_link_blocking
open_link_blocking-ConnectFate rs attempts fuel connects pos small enough =
    let retry = rs.cfg.connect_retry_ms in
    let bound = rs.cfg.startup_timeout_ms in
    let first : 0 * retry ≡ 0 = omega arith in
    rw connects (
      subst
        (λ (w : ℕ). ConnectFate attempts retry bound 0 (connect_loop attempts retry bound fuel w 0))
        first (connect_loop-ConnectFate attempts retry bound fuel 0 pos small (omega arith)))

settle_turn :
    (test : Bool) (rest : Option Negotiator) (n : Negotiator)
    → (test ≡ true → (n' : Negotiator) × (rest ≡ some n'))
    → (n' : Negotiator) × ((if test then rest else some n) ≡ some n')
settle_turn true rest n f = f refl
settle_turn false rest n f = (n, refl)

-- The negotiation ends.
settle_loop_returns :
    (rounds : ℕ → Round) (poll bound fuel : ℕ) (n : Negotiator) (waited i : ℕ)
    → 0 < poll
    → bound + poll < 2 ^ 32
    → waited ≤ bound
    → bound - waited < fuel
    → (n' : Negotiator) × (settle_loop rounds poll bound fuel n waited i ≡ some n')
unfolding settle_loop
settle_loop_returns rounds poll bound zero n waited i pos small below enough = absurd (omega arith)
settle_loop_returns rounds poll bound (suc fuel) n waited i pos small below enough =
    let n' = (Negotiator.execute n (rounds i)).0 in
    let undecided = same_state n'.own_state idle in
    let waited' = if undecided then u32 (waited + poll) else waited in
    settle_turn (undecided && ltb waited' bound)
      (settle_loop rounds poll bound fuel n' waited' (i + 1)) n'
      (λ more.
        settle_loop_returns rounds poll bound fuel n' waited' (i + 1) pos small (ground arith)
          (ground arith))

settle_returns :
    (fuel : ℕ) (rs : SiteRole) (n : Negotiator) (s : Start)
    → rs.negotiator ≡ some n
    → 0 < rs.cfg.link_poll_ms
    → rs.cfg.startup_timeout_ms + rs.cfg.link_poll_ms < 2 ^ 32
    → rs.cfg.startup_timeout_ms < fuel
    → (o : Status × SiteRole × List Event) × (settle fuel rs s ≡ some o)
unfolding settle
settle_returns fuel rs n s there pos small enough =
    let (n', e) =
      settle_loop_returns s.rounds rs.cfg.link_poll_ms rs.cfg.startup_timeout_ms fuel n 0 0 pos
        small (omega arith) (omega arith) in
    (settled rs n', rw there (ap (after_loop rs) e))

-- After a link was opened, the negotiation has an outcome.
negotiate_returns :
    (fuel : ℕ) (rs : SiteRole) (resume_standby : Bool) (s : Start)
    → 0 < rs.cfg.link_poll_ms
    → rs.cfg.startup_timeout_ms + rs.cfg.link_poll_ms < 2 ^ 32
    → rs.cfg.startup_timeout_ms < fuel
    → (o : Status × SiteRole × List Event) × (negotiate fuel
          (init_channel_and_negotiator rs resume_standby s.channel_status s.clock)
          s
        ≡ some o)
unfolding negotiate init_channel_and_negotiator with_negotiator
negotiate_returns fuel rs resume_standby s pos small enough =
    let ready = with_negotiator rs resume_standby s.clock in
    let (o, e) =
      settle_returns fuel ready (initialised (negotiator_config rs resume_standby) s.clock) s refl
        pos small enough in
    elim (Bool-cases (is_ok s.channel_status)) [
      | inl good ↦ (
        o,
        ap (λ (p : Status × SiteRole). negotiate fuel p s)
              (if_true (is_ok s.channel_status) (ok, ready) (s.channel_status, rs) good)
            ∙ e,
      )
      | inr bad ↦ (
        (s.channel_status, (close_link rs).0, (close_link rs).1),
        ap (λ (p : Status × SiteRole). negotiate fuel p s)
              (if_false (is_ok s.channel_status) (ok, ready) (s.channel_status, rs) bad)
            ∙ if_false (is_ok s.channel_status) (settle fuel rs s)
                (some (s.channel_status, (close_link rs).0, (close_link rs).1)) bad,
      )
    ]

-- Bounds on a configuration under which the start-up loops advance and time does not wrap.
pub record IsPaced (cfg : Config) : Type 0 where
  pub connects :
      (cfg.listen ≡ true)
      ⊎ ((0 < cfg.connect_retry_ms) × (cfg.startup_timeout_ms + cfg.connect_retry_ms < 2 ^ 32))
  pub polls : 0 < cfg.link_poll_ms
  pub poll_fits : cfg.startup_timeout_ms + cfg.link_poll_ms < 2 ^ 32

opens :
    (attempts : ℕ → Status) (retry bound i : ℕ) (r : Option Status)
    → ConnectFate attempts retry bound i r
    → (status : Status) × (r ≡ some status)
opens attempts retry bound i r (inl (k, le, lt, good, before, e)) = (ok, e)
opens attempts retry bound i r (inr (never, e)) = (timeout, e)

open_link_blocking_returns :
    (rs : SiteRole) (attempts : ℕ → Status) (fuel : ℕ)
    → IsPaced rs.cfg
    → rs.cfg.startup_timeout_ms < fuel
    → (status : Status) × (open_link_blocking fuel rs attempts ≡ some status)
unfolding open_link_blocking
open_link_blocking_returns rs attempts fuel p enough = elim (Bool-cases rs.cfg.listen) [
  | inl listens ↦ (
    attempts 0,
    if_true rs.cfg.listen (some (attempts 0))
        (connect_loop attempts rs.cfg.connect_retry_ms rs.cfg.startup_timeout_ms fuel 0 0) listens,
  )
  | inr connects ↦
      opens attempts rs.cfg.connect_retry_ms rs.cfg.startup_timeout_ms 0
        (open_link_blocking fuel rs attempts)
        (open_link_blocking-ConnectFate rs attempts fuel connects (ground (arith, p.connects))
          (ground (arith, p.connects)) enough)
]

prepared-cfg : (rs : SiteRole) (s : Start) → (prepared rs s).0.cfg ≡ rs.cfg
unfolding prepared
prepared-cfg rs s = ground arith

after_opening_returns :
    (rs : SiteRole) (negotiated : Option (Status × SiteRole × List Event)) (r : Option Status)
    (o : Status × SiteRole × List Event) (status : Status)
    → r ≡ some status
    → negotiated ≡ some o
    → (o' : Status × SiteRole × List Event) × (after_opening rs negotiated r ≡ some o')
unfolding after_opening
after_opening_returns rs negotiated r o status e f = elim (Bool-cases (is_ok status)) [
  | inl good ↦ (
    o,
    ap (after_opening rs negotiated) e
        ∙ if_true (is_ok status) negotiated (some (status, rs, [])) good
        ∙ f,
  )
  | inr bad ↦ (
    (status, rs, []),
    ap (after_opening rs negotiated) e
        ∙ if_false (is_ok status) negotiated (some (status, rs, [])) bad,
  )
]

-- A start ends, with any counterpart: if the poll interval and, on a connecting site, the retry interval are
-- not 0, and each added to the start-up time is below 2 ^ 32, so that the time waited does not wrap, then
-- with fuel above the start-up time both loops are left.
pub start_returns :
    (fuel : ℕ) (rs : SiteRole) (s : Start)
    → IsPaced rs.cfg
    → rs.cfg.startup_timeout_ms < fuel
    → (o : Status × SiteRole × List Event) × (start fuel rs s ≡ some o)
unfolding start
start_returns fuel rs s paced enough =
    let rs' = (prepared rs s).0 in
    let opened = record rs' { link_up = true } in
    let k = sym (prepared-cfg rs s) in
    let p : IsPaced rs'.cfg = subst IsPaced k paced in
    let more : rs'.cfg.startup_timeout_ms < fuel =
      subst (λ (c : Config). c.startup_timeout_ms < fuel) k enough in
    let (status, e) = open_link_blocking_returns rs' s.attempts fuel p more in
    let (o, f) = negotiate_returns fuel opened (prepared rs s).1 s p.polls p.poll_fits more in
    after_opening_returns rs'
      (negotiate fuel
        (init_channel_and_negotiator opened (prepared rs s).1 s.channel_status s.clock) s)
      (open_link_blocking fuel rs' s.attempts) o status e f
