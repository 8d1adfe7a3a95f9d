-- ===== src/SiteRole/Cycle/Runs.antt =====
-- Runs of cycles, and what the decision of a cycle leaves alone.
use platform_rte.Prelude.{ℕ, ◌≡◌, ◌∙◌, List, [], ◌∷◌, false, arith}
use platform_rte.SiteRole.Policy.{Action, Reason, decide}
use platform_rte.SiteRole.Types.{SiteRole, Local, Traffic}
use platform_rte.SiteRole.Role.{build_decision_input, run_site_role_decision, apply_action}
use platform_rte.SiteRole.Sibling.{check_sibling_after_decision}
use platform_rte.SiteRole.Cycle.{decide_and_check, execute}

-- A cycle as it is called, with what its calls give.
pub record Call : Type 0 where
  pub cycle : ℕ
  pub local : Local
  pub traffic : Traffic

unfoldable pub run : SiteRole → List Call → SiteRole
unfolding execute
run rs [] = rs
run rs (c ∷ cs) = run (execute rs c.cycle c.local c.traffic).0 cs

-- What a decision leaves alone.
pub record IsUnmoved (rs rs' : SiteRole) : Type 0 where
  pub link : rs'.link_up ≡ rs.link_up
  pub peer : rs'.peer_faulted ≡ rs.peer_faulted
  pub config : rs'.cfg ≡ rs.cfg
  pub misses : rs'.send_miss ≡ rs.send_miss
  pub confirmation : rs.takeover_confirmed ≡ false → rs'.takeover_confirmed ≡ false

apply_action-IsUnmoved :
    (rs : SiteRole) (action : Action) (reason : Reason)
    → IsUnmoved rs (apply_action rs action reason).0
unfolding apply_action
apply_action-IsUnmoved rs Action.none reason = ground arith
apply_action-IsUnmoved rs Action.promote reason = ground arith
apply_action-IsUnmoved rs Action.demote reason = ground arith
apply_action-IsUnmoved rs Action.renegotiate reason = ground arith
apply_action-IsUnmoved rs Action.alarm reason = ground arith
apply_action-IsUnmoved rs Action.wait reason = ground arith

check_sibling-IsUnmoved :
    (rs : SiteRole) (l : Local) → IsUnmoved rs (check_sibling_after_decision rs l).0
unfolding check_sibling_after_decision
check_sibling-IsUnmoved rs l = ground arith

pub decide_and_check-IsUnmoved :
    (rs : SiteRole) (l : Local) → IsUnmoved rs (decide_and_check rs l).0
unfolding decide_and_check run_site_role_decision
decide_and_check-IsUnmoved rs l =
    let i = build_decision_input rs l in
    let counted = record rs { both_standby_cycles = (decide i).both_standby_cycles } in
    let a = apply_action-IsUnmoved counted (decide i).action (decide i).reason in
    let b = check_sibling-IsUnmoved (run_site_role_decision rs l).0 l in
    record {
      link = b.link ∙ a.link;
      peer = b.peer ∙ a.peer;
      config = b.config ∙ a.config;
      misses = b.misses ∙ a.misses;
      confirmation = λ h. b.confirmation (a.confirmation h);
    }
