-- ===== src/SiteRole/Cycle/Causes.antt =====
-- What makes a channel ONLINE in a cycle of the service.
pub mod Conditions
pub mod Known
use platform_rte.Prelude.{
  ℕ, ◌≡◌, refl, sym, ◌∙◌, ◌⊎◌, inl, inr, List, ◌++◌, Bool, true, false, arith, if◌then◌else◌,
}
use platform_rte.Platform.Status.{Status, is_ok}
use platform_rte.Dual.Negotiator.{Round}
use platform_rte.SiteRole.Policy.{Input, Action, Reason, decide}
use platform_rte.SiteRole.Policy.Safety.{HasCause, promote-HasCause}
use platform_rte.SiteRole.Types.{SiteRole, Local, Traffic, Event}
use platform_rte.SiteRole.Role.{run_site_role_decision, apply_action, build_decision_input}
use platform_rte.SiteRole.Sibling.{fill_sibling_facts, check_sibling_after_decision}
use platform_rte.SiteRole.Link.{reconnect, handle_send_miss_and_link_teardown}
use platform_rte.SiteRole.Frames.{
  receive_frame, update_standby_warmth, send_frame, decode_frame, take_payload,
}
use platform_rte.SiteRole.Cycle.{decide_and_check, exchange, execute, begin_cycle, run_negotiator}

-- What may make a STANDBY channel ONLINE, by the facts of its decision: a promotion of a healthy channel
-- whose A/B pair is ready, with a cause; or, at WEST, that both sites are FAULTED.
abbrev pub MayBecomeOnline : Input → Type 0
MayBecomeOnline i =
    ((i.own_faulted ≡ false)
      × (i.own_ready ≡ true)
      × ((i.sibling_online ≡ true) ⊎ (i.sibling_ready ≡ true) ⊎ (i.sibling_reachable ≡ false))
      × HasCause i)
    ⊎ ((i.own_faulted ≡ true) × (i.peer_faulted ≡ true) × (i.is_west ≡ true))

apply_action-online :
    (rs : SiteRole) (action : Action) (reason : Reason)
    → rs.online ≡ false
    → (apply_action rs action reason).0.online ≡ true
    → (action ≡ Action.promote) ⊎ ((action ≡ Action.renegotiate) × (rs.cfg.is_west ≡ true))
unfolding apply_action
apply_action-online rs Action.none reason off on = ground arith
apply_action-online rs Action.promote reason off on = inl refl
apply_action-online rs Action.demote reason off on = ground arith
apply_action-online rs Action.renegotiate reason off on = inr (refl, ground arith)
apply_action-online rs Action.alarm reason off on = ground arith
apply_action-online rs Action.wait reason off on = ground arith

renegotiate_when :
    (i : Input)
    → (decide i).action ≡ Action.renegotiate
    → (i.own_faulted ≡ true) × (i.peer_faulted ≡ true)
unfolding decide
renegotiate_when i h = ground arith

input-is_west : (rs : SiteRole) (l : Local) → (build_decision_input rs l).is_west ≡ rs.cfg.is_west
unfolding build_decision_input fill_sibling_facts
input-is_west rs l = ground arith

-- What a decision reads does not depend on the counter that it writes first.
run_site_role_decision-MayBecomeOnline :
    (rs : SiteRole) (l : Local)
    → rs.online ≡ false
    → (run_site_role_decision rs l).0.online ≡ true
    → MayBecomeOnline (build_decision_input rs l)
unfolding run_site_role_decision
run_site_role_decision-MayBecomeOnline rs l off on =
    let i = build_decision_input rs l in
    let d = decide i in
    elim (apply_action-online (record rs { both_standby_cycles = d.both_standby_cycles }) d.action
      d.reason off on) [
        | inl p ↦ let c = promote-HasCause i p in inl (c.1, c.2, c.3, c.4)
        | inr (r, west) ↦ let b = renegotiate_when i r in inr (b.0, b.1, input-is_west rs l ∙ west)
      ]

check_sibling-online :
    (rs : SiteRole) (l : Local) → (check_sibling_after_decision rs l).0.online ≡ rs.online
unfolding check_sibling_after_decision
check_sibling-online rs l = ground arith

decide_and_check-MayBecomeOnline :
    (rs : SiteRole) (l : Local)
    → rs.online ≡ false
    → (decide_and_check rs l).0.online ≡ true
    → MayBecomeOnline (build_decision_input rs l)
unfolding decide_and_check
decide_and_check-MayBecomeOnline rs l off on =
    run_site_role_decision-MayBecomeOnline rs l off
      (sym (check_sibling-online (run_site_role_decision rs l).0 l) ∙ on)

-- What a cycle has heard on an open link when it decides.
abbrev pub heard : SiteRole → Traffic → SiteRole
heard rs t = update_standby_warmth (receive_frame rs t.arrival t.receive_state).1

-- The service when a cycle decides: on a link that was open or could be opened again it has heard the
-- counterpart; otherwise it knows what it knew.
abbrev pub at_decision : SiteRole → ℕ → Local → Traffic → SiteRole
at_decision rs cycle l t =
    let ready = begin_cycle rs cycle l t in
    let (status, linked, closing) = reconnect ready t in
    if ready.link_up
    then heard (run_negotiator ready t.round) t
    else if is_ok status
    then heard (run_negotiator linked t.round) t
    else linked

teardown-online :
    (rs : SiteRole) (send_ok : Bool) (status : Status)
    → (handle_send_miss_and_link_teardown rs send_ok status).0.online ≡ rs.online
unfolding handle_send_miss_and_link_teardown
teardown-online rs send_ok status = ground arith

heard-online : (rs : SiteRole) (t : Traffic) → (heard rs t).online ≡ rs.online
unfolding receive_frame update_standby_warmth decode_frame take_payload
heard-online rs t = ground arith

begin_cycle-online :
    (rs : SiteRole) (cycle : ℕ) (l : Local) (t : Traffic)
    → (begin_cycle rs cycle l t).online ≡ rs.online
unfolding begin_cycle
begin_cycle-online rs cycle l t = ground arith

reconnect-online : (rs : SiteRole) (t : Traffic) → (reconnect rs t).1.online ≡ rs.online
unfolding reconnect
reconnect-online rs t = ground arith

exchange-MayBecomeOnline :
    (rs : SiteRole) (l : Local) (t : Traffic)
    → rs.online ≡ false
    → (exchange rs l t).0.online ≡ true
    → MayBecomeOnline (build_decision_input (heard rs t) l)
unfolding exchange send_frame receive_frame
exchange-MayBecomeOnline rs l t off on =
    decide_and_check-MayBecomeOnline (heard rs t) l (heard-online rs t ∙ off) (
      sym (
        teardown-online (decide_and_check (heard rs t) l).0 (is_ok t.send_status)
          (receive_frame rs t.arrival t.receive_state).0)
      ∙ on)

run_negotiator-online : (rs : SiteRole) (r : Round) → (run_negotiator rs r).online ≡ rs.online
run_negotiator-online rs r = ground arith

-- A fact that holds on each branch of a cycle holds of the cycle.
by_branch :
    (l : Local) (up reached : Bool) (x y z : SiteRole) (ex ey ez : SiteRole × List Event)
    → (ex.0.online ≡ true → MayBecomeOnline (build_decision_input x l))
    → (ey.0.online ≡ true → MayBecomeOnline (build_decision_input y l))
    → (ez.0.online ≡ true → MayBecomeOnline (build_decision_input z l))
    → (if up then ex else if reached then ey else ez).0.online ≡ true
    → MayBecomeOnline (build_decision_input (if up then x else if reached then y else z) l)
by_branch l true reached x y z ex ey ez f g h on = f on
by_branch l false true x y z ex ey ez f g h on = g on
by_branch l false false x y z ex ey ez f g h on = h on

-- What made a STANDBY channel ONLINE in a cycle, by the facts of its decision.
pub decided-MayBecomeOnline :
    (rs : SiteRole) (cycle : ℕ) (l : Local) (t : Traffic)
    → rs.online ≡ false
    → (execute rs cycle l t).0.online ≡ true
    → MayBecomeOnline (build_decision_input (at_decision rs cycle l t) l)
unfolding execute
decided-MayBecomeOnline rs cycle l t off on =
    let ready = begin_cycle rs cycle l t in
    let (status, linked, closing) = reconnect ready t in
    let off_ready : ready.online ≡ false = begin_cycle-online rs cycle l t ∙ off in
    let off_linked : linked.online ≡ false = reconnect-online ready t ∙ off_ready in
    by_branch l ready.link_up (is_ok status) (heard (run_negotiator ready t.round) t)
      (heard (run_negotiator linked t.round) t) linked (exchange (run_negotiator ready t.round) l t)
      (exchange (run_negotiator linked t.round) l t)
      ((decide_and_check linked l).0, closing ++ (decide_and_check linked l).1)
      (exchange-MayBecomeOnline (run_negotiator ready t.round) l t
        (run_negotiator-online ready t.round ∙ off_ready))
      (exchange-MayBecomeOnline (run_negotiator linked t.round) l t
        (run_negotiator-online linked t.round ∙ off_linked))
      (decide_and_check-MayBecomeOnline linked l off_linked) on
