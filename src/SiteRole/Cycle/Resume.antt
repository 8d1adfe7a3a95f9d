-- ===== src/SiteRole/Cycle/Resume.antt =====
-- A start next to a running A/B sibling (REQ-SITEROLE-017).
use platform_rte.Prelude.{
  ℕ, suc, ◌+◌, ◌≡◌, refl, sym, ap, subst, ◌∙◌, List, [], ◌∷◌, Option, some, Bool, true, false, not,
  ◌&&◌, arith, u32, ltb, if◌then◌else◌, if_true, if_false,
}
use platform_rte.Platform.Status.{Status, ok, is_ok}
use platform_rte.Dual.Types.{DualState, idle, online, hot_standby}
use platform_rte.Dual.Negotiator
use platform_rte.Dual.Negotiator.{
  Negotiator, Round, same_state, initialised, process_all, StateFrame,
}
use platform_rte.SiteRole.Types.{SiteRole, Config, Sibling, Event}
use platform_rte.SiteRole.Link.{
  open_link_blocking, open_with, init_channel_and_negotiator, with_negotiator, negotiator_config,
}
use platform_rte.SiteRole.Cycle.{
  settle_loop, settle, settled, after_loop, negotiate, after_opening, prepared, start, Start,
}

-- A decided role survives the frames of a round.
process_all-own :
    (n : Negotiator) (arrivals : List (StateFrame × ℕ))
    → (process_all n arrivals).own_state ≡ n.own_state
unfolding process_all
process_all-own n [] = refl
process_all-own n ((frame, clock) ∷ rest) =
    process_all-own (Negotiator.process_peer_frame n frame clock) rest

next_states-online :
    (n : Negotiator) (clock : ℕ)
    → n.own_state ≡ online
    → (Negotiator.next_states n clock).0 ≡ online
unfolding Negotiator.next_states
next_states-online n clock h = ground arith

-- A STANDBY role is kept, or is unknown if contact is lost.
next_states-standby :
    (n : Negotiator) (clock : ℕ)
    → n.own_state ≡ hot_standby
    → (same_state (Negotiator.next_states n clock).0 online ≡ false)
      × (same_state (Negotiator.next_states n clock).0 idle ≡ false)
unfolding Negotiator.next_states
next_states-standby n clock h = ground arith

-- The role of a site at the end of a round that it begins ONLINE, or STANDBY: it is decided.
execute-role :
    (n : Negotiator) (r : Round) (on : Bool)
    → n.own_state ≡ (if on then online else hot_standby)
    → (same_state (Negotiator.execute n r).0.own_state online ≡ on)
      × (same_state (Negotiator.execute n r).0.own_state idle ≡ false)
unfolding Negotiator.execute
execute-role n r true h =
    let ready = Negotiator.refresh n r.status in
    let e =
      next_states-online (process_all ready r.arrivals) r.clock
        (process_all-own ready r.arrivals ∙ h) in
    (ap (λ (d : DualState). same_state d online) e, ap (λ (d : DualState). same_state d idle) e)
execute-role n r false h =
    let ready = Negotiator.refresh n r.status in
    next_states-standby (process_all ready r.arrivals) r.clock
      (process_all-own ready r.arrivals ∙ h)

and_false : (a b : Bool) → a ≡ false → (a && b) ≡ false
and_false a b h = ground arith

-- The loop ends after its first round if that leaves a role.
settle_loop_first :
    (rounds : ℕ → Round) (poll bound fuel : ℕ) (n : Negotiator)
    → same_state (Negotiator.execute n (rounds 0)).0.own_state idle ≡ false
    → settle_loop rounds poll bound (suc fuel) n 0 0 ≡ some (Negotiator.execute n (rounds 0)).0
unfolding settle_loop
settle_loop_first rounds poll bound fuel n decided =
    let n' = (Negotiator.execute n (rounds 0)).0 in
    let undecided = same_state n'.own_state idle in
    let waited = if undecided then u32 (0 + poll) else 0 in
    if_false (undecided && ltb waited bound) (settle_loop rounds poll bound fuel n' waited (0 + 1))
      (some n') (and_false undecided (ltb waited bound) decided)

-- The outcome of a start that resumes a role.
Resumed : Bool → Option (Status × SiteRole × List Event) → Type 0
Resumed on o = (rs : SiteRole) × (o ≡ some (ok, rs, [])) × (rs.online ≡ on)

settled-Resumed :
    (rs : SiteRole) (n : Negotiator) (on : Bool)
    → same_state n.own_state online ≡ on
    → same_state n.own_state idle ≡ false
    → Resumed on (some (settled rs n))
unfolding settled Resumed
settled-Resumed rs n on role decided = (
  record rs { negotiator = some n; online = same_state n.own_state online },
  ap (λ (x : Status × SiteRole × List Event). some x)
      (if_false (same_state n.own_state idle) _ _ decided),
  role,
)

settle-Resumed :
    (rs : SiteRole) (n : Negotiator) (s : Start) (fuel : ℕ) (on : Bool)
    → rs.negotiator ≡ some n
    → n.own_state ≡ (if on then online else hot_standby)
    → Resumed on (settle (suc fuel) rs s)
unfolding settle
settle-Resumed rs n s fuel on there role =
    let n' = (Negotiator.execute n (s.rounds 0)).0 in
    let (now, decided) = execute-role n (s.rounds 0) on role in
    let e =
      settle_loop_first s.rounds rs.cfg.link_poll_ms rs.cfg.startup_timeout_ms fuel n decided in
    rw there
      (subst (Resumed on) (sym (ap (after_loop rs) e)) (settled-Resumed rs n' on now decided))

prepared_role :
    (rs : SiteRole) (s : Start) (f : Sibling)
    → rs.cfg.has_sibling_source ≡ true
    → s.sibling_frame ≡ some f
    → f.known ≡ true
    → ((prepared rs s).0.online ≡ f.online)
      × ((prepared rs s).1 ≡ not f.online)
      × ((prepared rs s).0.cfg ≡ rs.cfg)
unfolding prepared
prepared_role rs s f source frame known = ground arith

role_of :
    (on on' resume : Bool)
    → on ≡ on'
    → resume ≡ not on'
    → (if on then online else if resume then hot_standby else idle)
      ≡ (if on' then online else hot_standby)
role_of on on' resume h k = ground arith

negotiate-Resumed :
    (fuel : ℕ) (rs : SiteRole) (resume on : Bool) (s : Start)
    → rs.online ≡ on
    → resume ≡ not on
    → is_ok s.channel_status ≡ true
    → Resumed on
        (negotiate (suc fuel) (init_channel_and_negotiator rs resume s.channel_status s.clock) s)
unfolding negotiate init_channel_and_negotiator with_negotiator negotiator_config initialised
negotiate-Resumed fuel rs resume on s role resumes good =
    let ready = with_negotiator rs resume s.clock in
    subst (Resumed on)
      (sym (
        ap (λ (p : Status × SiteRole). negotiate (suc fuel) p s)
          (if_true (is_ok s.channel_status) (ok, ready) (s.channel_status, rs) good)))
      (settle-Resumed ready (initialised (negotiator_config rs resume) s.clock) s fuel on refl
        (role_of rs.online on resume role resumes))

-- A start whose sibling source has a frame of the A/B sibling, on a link that opens and a dual channel
-- that comes up, ends after one round of the negotiator in the role of the sibling, whatever the
-- counterpart sends.
pub start_resumes :
    (fuel : ℕ) (rs : SiteRole) (s : Start) (f : Sibling)
    → rs.cfg.has_sibling_source ≡ true
    → s.sibling_frame ≡ some f
    → f.known ≡ true
    → is_ok s.channel_status ≡ true
    → open_link_blocking (suc fuel) rs s.attempts ≡ some ok
    → (rs' : SiteRole) × (start (suc fuel) rs s ≡ some (ok, rs', [])) × (rs'.online ≡ f.online)
unfolding start open_link_blocking after_opening Resumed
start_resumes fuel rs s f source frame known good opens =
    let rs' = (prepared rs s).0 in
    let resume = (prepared rs s).1 in
    let (role, resumes, same) = prepared_role rs s f source frame known in
    let opened = record rs' { link_up = true } in
    let next =
      negotiate (suc fuel) (init_channel_and_negotiator opened resume s.channel_status s.clock) s in
    let reached : open_link_blocking (suc fuel) rs' s.attempts ≡ some ok =
      ap (λ (c : Config). open_with (suc fuel) c s.attempts) same ∙ opens in
    subst (Resumed f.online) (sym (ap (after_opening rs' next) reached))
      (negotiate-Resumed fuel opened resume f.online s role resumes good)
