-- ===== src/SiteRole/Sibling.antt =====
-- rte_site_role.c: the A/B sibling, its frames and the check of its role against the own one.
use platform_rte.Prelude.{
  ℕ, ◌+◌, ◌-◌, List, [], ◌∷◌, Option, none, some, Bool, true, false, not, ◌&&◌, ltb, leb,
  if◌then◌else◌,
}
use platform_rte.SiteRole.Types.{
  SiteRole, Local, Sibling, Verdict, Event, mismatched, sibling_mismatch_limit,
}
use platform_rte.SiteRole.Policy.{Input}

-- The `==` of two truth values.
abbrev pub same_bool : Bool → Bool → Bool
same_bool true b = b
same_bool false b = not b

abbrev take_frame : SiteRole → ℕ → Option Sibling → SiteRole
take_frame rs cycle none = rs
take_frame rs cycle (some frame) = record rs { sibling = frame; sibling_rx_cycle = cycle }

-- `poll_sibling_source`
unfoldable pub poll_sibling_source : SiteRole → ℕ → Option Sibling → SiteRole
poll_sibling_source rs cycle frame =
    if rs.cfg.has_sibling_source then take_frame rs cycle frame else rs

-- `sibling_reachable`; the subtraction runs only where the first number is the larger.
unfoldable pub sibling_reachable : SiteRole → Bool
sibling_reachable rs =
    rs.sibling.known
    && (leb rs.sibling_rx_cycle rs.cycle
        && leb (rs.cycle - rs.sibling_rx_cycle) rs.cfg.sibling_reach_cycles)

-- `fill_sibling_facts`
unfoldable pub fill_sibling_facts : SiteRole → Local → Input → Input
unfolding sibling_reachable
fill_sibling_facts rs l i =
    if rs.cfg.has_sibling_source
    then record i {
      sibling_online = rs.sibling.known && rs.sibling.online;
      sibling_ready = rs.sibling.known && rs.sibling.ready;
      sibling_reachable = sibling_reachable rs;
    }
    else record i {
      sibling_online = l.sibling_online;
      sibling_ready = l.sibling_ready;
      sibling_reachable = l.sibling_reachable;
    }

-- `rte_site_role_check_sibling` with a service; `none` is NULL.
unfoldable pub check_sibling : SiteRole → Bool → Option Sibling → Verdict × SiteRole × List Event
check_sibling rs own_single_mode none = (Verdict.unknown, rs, [])
check_sibling rs own_single_mode (some s) =
    let count =
      if ltb rs.sibling_mismatch 255 then rs.sibling_mismatch + 1 else rs.sibling_mismatch in
    if not s.known
    then (Verdict.unknown, rs, [])
    else if same_bool s.online rs.online && same_bool s.single_mode own_single_mode
    then (Verdict.agree, record rs { sibling_mismatch = 0 }, [])
    else if ltb count sibling_mismatch_limit
    then (Verdict.pending, record rs { sibling_mismatch = count }, [])
    else (Verdict.fault, record rs { sibling_mismatch = count }, mismatched ∷ [])

-- `check_sibling_after_decision`
unfoldable pub check_sibling_after_decision : SiteRole → Local → SiteRole × List Event
unfolding check_sibling
check_sibling_after_decision rs l =
    let (verdict, rs', events) = check_sibling rs l.single_mode (some rs.sibling) in
    if rs.cfg.has_sibling_source
    then (record rs' { sibling_verdict = verdict }, events)
    else (rs, [])

-- `startup_role_from_sibling`: the service, and whether it resumes STANDBY.
unfoldable pub startup_role_from_sibling : SiteRole → SiteRole × Bool
startup_role_from_sibling rs =
    if rs.cfg.has_sibling_source && rs.sibling.known
    then (record rs { online = rs.sibling.online }, not rs.sibling.online)
    else (rs, false)
