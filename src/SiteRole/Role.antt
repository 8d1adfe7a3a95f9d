-- ===== src/SiteRole/Role.antt =====
-- rte_site_role.c: the decision of a cycle and what it changes.
use platform_rte.Prelude.{List, [], ◌∷◌, Bool, true, false, not, ◌&&◌, ◌||◌, if◌then◌else◌}
use platform_rte.SiteRole.Types.{
  SiteRole, Local, ChangeKind, promoted, demoted, renegotiated, Event, changed, noted,
}
use platform_rte.SiteRole.Policy.{Input, Reason, Action, decide}
use platform_rte.SiteRole.Sibling.{fill_sibling_facts}

-- The stamps of the old numbering are void once the application takes a snapshot over.
abbrev pub renumbered : SiteRole → SiteRole
renumbered rs = record rs {
  peer_last_rx_cycle = 0;
  standby_rx_cycle = 0;
  standby_last_try_cycle = 0;
}

-- `report_change`
unfoldable pub report_change : SiteRole → ChangeKind → Reason → Bool → SiteRole × List Event
report_change rs kind reason apply_state = (
  if apply_state && rs.peer_snapshot_valid then renumbered rs else rs,
  changed (record {
    kind = kind;
    reason = reason;
    online = rs.online;
    apply_state = apply_state;
    snapshot_valid = rs.peer_snapshot_valid;
    snapshot_cycle = rs.peer_snapshot_cycle;
  })
      ∷ [],
)

unfoldable pub promote_to_online : SiteRole → Reason → SiteRole × List Event
unfolding report_change
promote_to_online rs reason =
    report_change
      (record rs { online = true; peer_unresponsive = false; takeover_confirmed = false }) promoted
      reason true

unfoldable pub demote_to_standby : SiteRole → Reason → SiteRole × List Event
unfolding report_change
demote_to_standby rs reason =
    report_change (record rs { online = false; lost_peer_while_online = false }) demoted reason
      false

-- Both sites are FAULTED: WEST becomes ONLINE and EAST STANDBY.
unfoldable pub renegotiate_from_deadlock : SiteRole → Reason → SiteRole × List Event
unfolding report_change
renegotiate_from_deadlock rs reason =
    report_change (record rs { online = rs.cfg.is_west }) renegotiated reason rs.cfg.is_west

-- `build_decision_input`
unfoldable pub build_decision_input : SiteRole → Local → Input
unfolding fill_sibling_facts
build_decision_input rs l = fill_sibling_facts rs l (record {
  is_online = rs.online;
  own_faulted = rs.local_faulted;
  is_west = rs.cfg.is_west;
  link_up = rs.link_up;
  peer_unresponsive = rs.peer_unresponsive;
  cycle = rs.cycle;
  peer_last_rx_cycle = rs.peer_last_rx_cycle;
  peer_online_now = rs.peer_online_now;
  peer_faulted = rs.peer_faulted;
  peer_snapshot_valid = rs.peer_snapshot_valid;
  sibling_online = false;
  takeover_confirmed = rs.takeover_confirmed;
  takeover_confirm_cycle = rs.takeover_confirm_cycle;
  lost_peer_while_online = rs.lost_peer_while_online;
  both_standby_cycles = rs.both_standby_cycles;
  own_ready = l.own_ready;
  sibling_ready = false;
  sibling_reachable = false;
})

-- The `==` of two reasons.
abbrev pub same_reason : Reason → Reason → Bool
same_reason Reason.none Reason.none = true
same_reason Reason.both_faulted Reason.both_faulted = true
same_reason Reason.peer_faulted Reason.peer_faulted = true
same_reason Reason.recovered Reason.recovered = true
same_reason Reason.dispatcher_confirmed Reason.dispatcher_confirmed = true
same_reason Reason.both_standby_west Reason.both_standby_west = true
same_reason Reason.both_standby_sibling Reason.both_standby_sibling = true
same_reason Reason.yield_to_takeover Reason.yield_to_takeover = true
same_reason Reason.dual_online Reason.dual_online = true
same_reason Reason.waiting_ready Reason.waiting_ready = true
same_reason _ _ = false

unfoldable pub reason_changed : SiteRole → Reason → Bool
reason_changed rs reason = not rs.last_reason_set || not (same_reason rs.last_reason reason)

unfoldable pub set_reason : SiteRole → Reason → SiteRole
set_reason rs reason = record rs { last_reason = reason; last_reason_set = true }

-- The cases ALARM and WAIT: a reason is noted when it is new.
unfoldable pub note_reason : SiteRole → Reason → SiteRole × List Event
unfolding reason_changed set_reason
note_reason rs reason =
    if reason_changed rs reason then (set_reason rs reason, noted reason ∷ []) else (rs, [])

-- A role change, then the reason.
abbrev with_reason : SiteRole × List Event → Reason → SiteRole × List Event
unfolding set_reason
with_reason (rs, events) reason = (set_reason rs reason, events)

-- The `switch` of `run_site_role_decision`.
unfoldable pub apply_action : SiteRole → Action → Reason → SiteRole × List Event
unfolding promote_to_online demote_to_standby renegotiate_from_deadlock note_reason set_reason
apply_action rs Action.promote reason = with_reason (promote_to_online rs reason) reason
apply_action rs Action.demote reason = with_reason (demote_to_standby rs reason) reason
apply_action rs Action.renegotiate reason = with_reason (renegotiate_from_deadlock rs reason) reason
apply_action rs Action.alarm reason = note_reason rs reason
apply_action rs Action.wait reason = note_reason rs reason
apply_action rs Action.none reason = (rs, [])

-- `run_site_role_decision`
unfoldable pub run_site_role_decision : SiteRole → Local → SiteRole × List Event
unfolding build_decision_input apply_action
run_site_role_decision rs l =
    let d = decide (build_decision_input rs l) in
    apply_action (record rs { both_standby_cycles = d.both_standby_cycles }) d.action d.reason

-- `take_local`
unfoldable pub take_local : SiteRole → Local → SiteRole
take_local rs l = record rs { local_faulted = l.faulted; local_single_mode = l.single_mode }
