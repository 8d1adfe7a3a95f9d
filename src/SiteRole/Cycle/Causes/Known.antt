-- ===== src/SiteRole/Cycle/Causes/Known.antt =====
-- What a service knows when it decides, by what it knew before the cycle and what arrives in it.
use platform_rte.Prelude.{
  ℕ, ◌+◌, ◌≤◌, ◌≡◌, ◌⊎◌, refl, sym, inl, inr, ◌∙◌, Bool, true, false, arith, if◌then◌else◌,
}
use platform_rte.Platform.Status.{is_ok}
use platform_rte.Dual.Negotiator.{Round}
use platform_rte.SiteRole.Types.{SiteRole, Local, Traffic}
use platform_rte.SiteRole.Role.{build_decision_input}
use platform_rte.SiteRole.Sibling.{fill_sibling_facts, sibling_reachable}
use platform_rte.SiteRole.Link.{reconnect, with_negotiator}
use platform_rte.SiteRole.Frames.{receive_frame, update_standby_warmth, decode_frame, take_payload}
use platform_rte.SiteRole.Cycle.{execute, begin_cycle, run_negotiator}
use platform_rte.SiteRole.Cycle.Causes.Conditions.{
  sibling_now, sibling_now_cycle, PeerFaulted, PeerStandby, OnlineCause,
}
use platform_rte.SiteRole.Cycle.Causes.{
  MayBecomeOnline, at_decision, heard, decided-MayBecomeOnline,
}

-- A service in the cycle, before it reads a frame.
record IsBegun (rs : SiteRole) (cycle : ℕ) (l : Local) (t : Traffic) (x : SiteRole) : Type 0 where
  at_cycle : x.cycle ≡ cycle
  config : x.cfg ≡ rs.cfg
  own_fault : x.local_faulted ≡ l.faulted
  confirm_cycle : x.takeover_confirm_cycle ≡ rs.takeover_confirm_cycle
  waits : x.both_standby_cycles ≡ rs.both_standby_cycles
  fault : x.peer_faulted ≡ rs.peer_faulted
  silence : x.peer_unresponsive ≡ rs.peer_unresponsive
  peer_role : x.peer_online_now ≡ rs.peer_online_now
  answer : x.peer_last_rx_cycle ≡ rs.peer_last_rx_cycle
  buffer : x.rx_buf ≡ rs.rx_buf
  confirmed : x.takeover_confirmed ≡ true → rs.takeover_confirmed ≡ true
  linked : x.link_up ≡ true → (rs.link_up ≡ true) ⊎ (is_ok t.open_status ≡ true)
  sibling : rs.cfg.has_sibling_source ≡ true → x.sibling ≡ sibling_now rs t.sibling_frame
  sibling_cycle :
      rs.cfg.has_sibling_source ≡ true
      → x.sibling_rx_cycle ≡ sibling_now_cycle rs cycle t.sibling_frame

-- A service when it decides.
record Knows (rs : SiteRole) (cycle : ℕ) (l : Local) (t : Traffic) (x : SiteRole) : Type 0 where
  at_cycle : x.cycle ≡ cycle
  config : x.cfg ≡ rs.cfg
  own_fault : x.local_faulted ≡ l.faulted
  confirm_cycle : x.takeover_confirm_cycle ≡ rs.takeover_confirm_cycle
  waits : x.both_standby_cycles ≡ rs.both_standby_cycles
  fault : x.peer_faulted ≡ true → PeerFaulted rs t
  silence : x.peer_unresponsive ≡ true → rs.peer_unresponsive ≡ true
  confirmed : x.takeover_confirmed ≡ true → rs.takeover_confirmed ≡ true
  linked : x.link_up ≡ true → (rs.link_up ≡ true) ⊎ (is_ok t.open_status ≡ true)
  standby :
      x.peer_unresponsive ≡ false
      → x.peer_online_now ≡ false
      → x.peer_last_rx_cycle ≤ cycle
      → cycle ≤ x.peer_last_rx_cycle + 2
      → PeerStandby rs cycle t
  sibling : rs.cfg.has_sibling_source ≡ true → x.sibling ≡ sibling_now rs t.sibling_frame
  sibling_cycle :
      rs.cfg.has_sibling_source ≡ true
      → x.sibling_rx_cycle ≡ sibling_now_cycle rs cycle t.sibling_frame

begin_cycle-IsBegun :
    (rs : SiteRole) (cycle : ℕ) (l : Local) (t : Traffic)
    → IsBegun rs cycle l t (begin_cycle rs cycle l t)
unfolding begin_cycle
begin_cycle-IsBegun rs cycle l t = record {
  at_cycle = ground arith;
  config = ground arith;
  own_fault = ground arith;
  confirm_cycle = ground arith;
  waits = ground arith;
  fault = ground arith;
  silence = ground arith;
  peer_role = ground arith;
  answer = ground arith;
  buffer = ground arith;
  confirmed = λ e. ground arith;
  linked = λ e. ground arith;
  sibling = λ e. ground arith;
  sibling_cycle = λ e. ground arith;
}

reconnect-IsBegun :
    (rs x : SiteRole) (cycle : ℕ) (l : Local) (t : Traffic)
    → IsBegun rs cycle l t x
    → IsBegun rs cycle l t (reconnect x t).1
unfolding reconnect with_negotiator
reconnect-IsBegun rs x cycle l t b = record {
  at_cycle = ground (arith, b.at_cycle);
  config = ground (arith, b.config);
  own_fault = ground (arith, b.own_fault);
  confirm_cycle = ground (arith, b.confirm_cycle);
  waits = ground (arith, b.waits);
  fault = ground (arith, b.fault);
  silence = ground (arith, b.silence);
  peer_role = ground (arith, b.peer_role);
  answer = ground (arith, b.answer);
  buffer = ground (arith, b.buffer);
  confirmed = λ e. b.confirmed (ground arith);
  linked = λ e. ground (arith, b.linked);
  sibling = λ e. ground (arith, b.sibling e);
  sibling_cycle = λ e. ground (arith, b.sibling_cycle e);
}

run_negotiator-IsBegun :
    (rs x : SiteRole) (cycle : ℕ) (l : Local) (t : Traffic) (r : Round)
    → IsBegun rs cycle l t x
    → IsBegun rs cycle l t (run_negotiator x r)
run_negotiator-IsBegun rs x cycle l t r b = record {
  at_cycle = ground (arith, b.at_cycle);
  config = ground (arith, b.config);
  own_fault = ground (arith, b.own_fault);
  confirm_cycle = ground (arith, b.confirm_cycle);
  waits = ground (arith, b.waits);
  fault = ground (arith, b.fault);
  silence = ground (arith, b.silence);
  peer_role = ground (arith, b.peer_role);
  answer = ground (arith, b.answer);
  buffer = ground (arith, b.buffer);
  confirmed = λ e. b.confirmed (ground arith);
  linked = λ e. b.linked (ground arith);
  sibling = λ e. ground (arith, b.sibling e);
  sibling_cycle = λ e. ground (arith, b.sibling_cycle e);
}

-- On a closed link the service decides on what it knew.
IsBegun-Knows :
    (rs x : SiteRole) (cycle : ℕ) (l : Local) (t : Traffic)
    → IsBegun rs cycle l t x
    → Knows rs cycle l t x
IsBegun-Knows rs x cycle l t b = record {
  at_cycle = b.at_cycle;
  config = b.config;
  own_fault = b.own_fault;
  confirm_cycle = b.confirm_cycle;
  waits = b.waits;
  fault = λ e. inl (sym b.fault ∙ e);
  silence = λ e. sym b.silence ∙ e;
  confirmed = b.confirmed;
  linked = b.linked;
  standby = λ e1 e2 e3 e4. ground (arith, b.silence, b.peer_role, b.answer);
  sibling = b.sibling;
  sibling_cycle = b.sibling_cycle;
}

-- On an open link it has heard the counterpart.
heard-Knows :
    (rs x : SiteRole) (cycle : ℕ) (l : Local) (t : Traffic)
    → (rs.link_up ≡ true) ⊎ (is_ok t.open_status ≡ true)
    → IsBegun rs cycle l t x
    → Knows rs cycle l t (heard x t)
unfolding receive_frame decode_frame take_payload update_standby_warmth
heard-Knows rs x cycle l t reached b = record {
  at_cycle = ground (arith, b.at_cycle);
  config = ground (arith, b.config);
  own_fault = ground (arith, b.own_fault);
  confirm_cycle = ground (arith, b.confirm_cycle);
  waits = ground (arith, b.waits);
  fault = λ e. ground (arith, b.fault, b.buffer);
  silence = λ e. ground (arith, b.silence);
  confirmed = λ e. b.confirmed (ground arith);
  linked = λ e. b.linked (ground arith);
  standby = λ e1 e2 e3 e4. ground (arith, b.silence, b.peer_role, b.answer, b.buffer, b.config);
  sibling = λ e. ground (arith, b.sibling e);
  sibling_cycle = λ e. ground (arith, b.sibling_cycle e);
}

-- A link that is opened again was opened by its open call.
reconnect_opened :
    (x : SiteRole) (t : Traffic) → is_ok (reconnect x t).0 ≡ true → is_ok t.open_status ≡ true
unfolding reconnect
reconnect_opened x t e = ground arith

Knows-by_branch :
    (rs : SiteRole) (cycle : ℕ) (l : Local) (t : Traffic) (up reached : Bool) (x y z : SiteRole)
    → (up ≡ true → Knows rs cycle l t x)
    → (reached ≡ true → Knows rs cycle l t y)
    → Knows rs cycle l t z
    → Knows rs cycle l t (if up then x else if reached then y else z)
Knows-by_branch rs cycle l t true reached x y z f g h = f refl
Knows-by_branch rs cycle l t false true x y z f g h = g refl
Knows-by_branch rs cycle l t false false x y z f g h = h

at_decision-Knows :
    (rs : SiteRole) (cycle : ℕ) (l : Local) (t : Traffic)
    → Knows rs cycle l t (at_decision rs cycle l t)
at_decision-Knows rs cycle l t =
    let ready = begin_cycle rs cycle l t in
    let b = begin_cycle-IsBegun rs cycle l t in
    let (status, linked, closing) = reconnect ready t in
    let b' = reconnect-IsBegun rs ready cycle l t b in
    Knows-by_branch rs cycle l t ready.link_up (is_ok status)
      (heard (run_negotiator ready t.round) t) (heard (run_negotiator linked t.round) t) linked
      (λ up.
        heard-Knows rs (run_negotiator ready t.round) cycle l t (b.linked up)
          (run_negotiator-IsBegun rs ready cycle l t t.round b))
      (λ e.
        heard-Knows rs (run_negotiator linked t.round) cycle l t (inr (reconnect_opened ready t e))
          (run_negotiator-IsBegun rs linked cycle l t t.round b'))
      (IsBegun-Knows rs linked cycle l t b')

Knows-OnlineCause :
    (rs x : SiteRole) (cycle : ℕ) (l : Local) (t : Traffic)
    → Knows rs cycle l t x
    → MayBecomeOnline (build_decision_input x l)
    → OnlineCause rs cycle l t
unfolding build_decision_input fill_sibling_facts sibling_reachable
Knows-OnlineCause rs x cycle l t k m = ground (
  arith, k.at_cycle, k.config, k.own_fault, k.confirm_cycle, k.waits, k.fault, k.silence,
  k.confirmed, k.linked, k.standby, k.sibling, k.sibling_cycle,
)

-- A STANDBY channel is ONLINE after a cycle only with one of these causes, by the service before the cycle,
-- its local facts and what arrives in it. It is healthy and ready, its sibling is ONLINE, ready or
-- unreachable, and the counterpart is FAULTED, or silent with a dispatcher confirmation at most 120
-- cycles old, or the sibling is ONLINE, or this is WEST, in a stand-off of at least five earlier
-- cycles, over a link that is open or opened, with a counterpart that answers that it is not ONLINE.
-- Or the channel is FAULTED, the counterpart is FAULTED too, and this is WEST.
pub execute-OnlineCause :
    (rs : SiteRole) (cycle : ℕ) (l : Local) (t : Traffic)
    → rs.online ≡ false
    → (execute rs cycle l t).0.online ≡ true
    → OnlineCause rs cycle l t
execute-OnlineCause rs cycle l t off on =
    Knows-OnlineCause rs (at_decision rs cycle l t) cycle l t (at_decision-Knows rs cycle l t)
      (decided-MayBecomeOnline rs cycle l t off on)
