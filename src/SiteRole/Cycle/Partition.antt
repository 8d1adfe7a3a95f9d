-- ===== src/SiteRole/Cycle/Partition.antt =====
-- A partition between the sites: the link cannot be opened, cycle after cycle.
use platform_rte.Prelude.{
  ◌≡◌, ap, ◌∙◌, inl, inr, List, [], ◌∷◌, ◌++◌, false, arith, if◌then◌else◌, if_false, All,
  Bool-cases,
}
use platform_rte.Platform.Status.{is_ok}
use platform_rte.SiteRole.Policy.{Input}
use platform_rte.SiteRole.Types.{SiteRole, Config, Traffic, Event}
use platform_rte.SiteRole.Role.{build_decision_input}
use platform_rte.SiteRole.Sibling.{fill_sibling_facts}
use platform_rte.SiteRole.Link.{reconnect}
use platform_rte.SiteRole.Cycle.{decide_and_check, execute, begin_cycle, exchange, run_negotiator}
use platform_rte.SiteRole.Cycle.Runs.{Call, run, decide_and_check-IsUnmoved}
use platform_rte.SiteRole.Cycle.Causes.{MayBecomeOnline, at_decision, decided-MayBecomeOnline}

-- The link cannot be opened, and the application reports no ONLINE sibling.
abbrev pub IsCutOff : Call → Type 0
IsCutOff c = (is_ok c.traffic.open_status ≡ false) × (c.local.sibling_online ≡ false)

-- A STANDBY channel that lost its link, with no FAULTED counterpart, no confirmation and no sibling source.
pub record IsStranded (rs : SiteRole) : Type 0 where
  pub standby : rs.online ≡ false
  pub down : rs.link_up ≡ false
  pub peer_sound : rs.peer_faulted ≡ false
  pub unconfirmed : rs.takeover_confirmed ≡ false
  pub sourceless : rs.cfg.has_sibling_source ≡ false

-- Such a channel decides on what it knew.
stranded_facts :
    (rs : SiteRole) (c : Call)
    → IsStranded rs
    → IsCutOff c
    → let i = build_decision_input (at_decision rs c.cycle c.local c.traffic) c.local in
      (i.peer_faulted ≡ false)
      × (i.takeover_confirmed ≡ false)
      × (i.sibling_online ≡ false)
      × (i.link_up ≡ false)
unfolding build_decision_input fill_sibling_facts begin_cycle reconnect
stranded_facts rs c s cut = ground arith

begin_cycle-IsStranded :
    (rs : SiteRole) (c : Call)
    → IsStranded rs
    → IsStranded (begin_cycle rs c.cycle c.local c.traffic)
unfolding begin_cycle
begin_cycle-IsStranded rs c s = ground arith

reconnect_fails :
    (rs : SiteRole) (t : Traffic)
    → is_ok t.open_status ≡ false
    → (is_ok (reconnect rs t).0 ≡ false) × ((reconnect rs t).1 ≡ rs)
unfolding reconnect
reconnect_fails rs t h = ground arith

-- The cycle of a cut-off channel.
execute_cut_off :
    (rs : SiteRole) (c : Call)
    → IsStranded rs
    → IsCutOff c
    → (execute rs c.cycle c.local c.traffic).0
      ≡ (decide_and_check (begin_cycle rs c.cycle c.local c.traffic) c.local).0
unfolding execute
execute_cut_off rs c s cut =
    let t = c.traffic in
    let ready = begin_cycle rs c.cycle c.local t in
    let linked = (reconnect ready t).1 in
    let failed = reconnect_fails ready t cut.0 in
    let last : SiteRole × List Event = (
      (decide_and_check linked c.local).0,
      (reconnect ready t).2 ++ (decide_and_check linked c.local).1,
    ) in
    let again =
      if is_ok (reconnect ready t).0
      then exchange (run_negotiator linked t.round) c.local t
      else last in
    ap (λ (o : SiteRole × List Event). o.0)
      (if_false ready.link_up (exchange (run_negotiator ready t.round) c.local t) again
          (begin_cycle-IsStranded rs c s).down
        ∙ if_false (is_ok (reconnect ready t).0)
            (exchange (run_negotiator linked t.round) c.local t) last failed.0)
    ∙ ap (λ (r : SiteRole). (decide_and_check r c.local).0) failed.1

cannot_become :
    (i : Input)
    → (i.peer_faulted ≡ false)
      × (i.takeover_confirmed ≡ false)
      × (i.sibling_online ≡ false)
      × (i.link_up ≡ false)
    → ¬ MayBecomeOnline i
cannot_become i h m = ground arith

execute-IsStranded :
    (rs : SiteRole) (c : Call)
    → IsStranded rs
    → IsCutOff c
    → IsStranded (execute rs c.cycle c.local c.traffic).0
execute-IsStranded rs c s cut =
    let ready = begin_cycle rs c.cycle c.local c.traffic in
    let b = begin_cycle-IsStranded rs c s in
    let e = execute_cut_off rs c s cut in
    let u = decide_and_check-IsUnmoved ready c.local in
    record {
      standby = elim (Bool-cases (execute rs c.cycle c.local c.traffic).0.online) [
        | inl on ↦ absurd (
            cannot_become (build_decision_input (at_decision rs c.cycle c.local c.traffic) c.local)
              (stranded_facts rs c s cut)
              (decided-MayBecomeOnline rs c.cycle c.local c.traffic s.standby on))
        | inr off ↦ off
      ];
      down = ap (λ (x : SiteRole). x.link_up) e ∙ u.link ∙ b.down;
      peer_sound = ap (λ (x : SiteRole). x.peer_faulted) e ∙ u.peer ∙ b.peer_sound;
      unconfirmed = ap (λ (x : SiteRole). x.takeover_confirmed) e ∙ u.confirmation b.unconfirmed;
      sourceless =
          ap (λ (x : SiteRole). x.cfg.has_sibling_source) e
          ∙ ap (λ (k : Config). k.has_sibling_source) u.config
          ∙ b.sourceless;
    }

-- A STANDBY channel that lost the link to a counterpart it does not know to be FAULTED stays STANDBY over
-- any number of cycles in which the link cannot be opened, no confirmation arrives and the
-- application, which supplies the facts of the sibling, reports no ONLINE sibling.
pub stays_standby :
    (rs : SiteRole) (calls : List Call)
    → IsStranded rs
    → All IsCutOff calls
    → IsStranded (run rs calls)
unfolding run
stays_standby rs [] s cut = s
stays_standby rs (c ∷ cs) s cut =
    stays_standby (execute rs c.cycle c.local c.traffic).0 cs (execute-IsStranded rs c s cut.0)
      cut.1
