-- ===== src/SiteRole/Policy.antt =====
-- rte_site_role_policy.c: what a channel does with its role this cycle, from the facts that it has.
pub mod Safety
pub mod Tiebreak
mod Tests
use Prim.Native.String.{String}
use platform_rte.Prelude.{
  ℕ, ◌+◌, ◌-◌, Bool, true, false, not, ◌&&◌, ◌||◌, leb, ltb, if◌then◌else◌, u32,
}

pub data Action : Type 0 where
  none : Action
  promote : Action
  demote : Action
  renegotiate : Action
  alarm : Action
  wait : Action

pub data Reason : Type 0 where
  none : Reason
  both_faulted : Reason
  peer_faulted : Reason
  recovered : Reason
  dispatcher_confirmed : Reason
  both_standby_west : Reason
  both_standby_sibling : Reason
  yield_to_takeover : Reason
  dual_online : Reason
  waiting_ready : Reason

pub record Input : Type 0 where
  pub is_online : Bool
  pub own_faulted : Bool
  pub is_west : Bool
  pub link_up : Bool
  pub peer_unresponsive : Bool
  pub cycle : ℕ
  pub peer_last_rx_cycle : ℕ
  pub peer_online_now : Bool
  pub peer_faulted : Bool
  pub peer_snapshot_valid : Bool
  pub sibling_online : Bool
  pub takeover_confirmed : Bool
  pub takeover_confirm_cycle : ℕ
  pub lost_peer_while_online : Bool
  pub both_standby_cycles : ℕ
  pub own_ready : Bool
  pub sibling_ready : Bool
  pub sibling_reachable : Bool

pub record Decision : Type 0 where
  pub action : Action
  pub reason : Reason
  pub both_standby_cycles : ℕ

abbrev pub standby_data_timeout_cycles : ℕ
standby_data_timeout_cycles = 3

abbrev pub standby_sync_retry_cycles : ℕ
standby_sync_retry_cycles = 10

abbrev pub takeover_confirm_valid_cycles : ℕ
takeover_confirm_valid_cycles = 120

abbrev pub tiebreak_cycles : ℕ
tiebreak_cycles = 6

-- The subtractions of this file run only where the first number is the larger.
unfoldable pub peer_answering : Input → Bool
peer_answering i = leb i.peer_last_rx_cycle i.cycle && leb (i.cycle - i.peer_last_rx_cycle) 2

unfoldable pub pair_ready_to_promote : Input → Bool
pair_ready_to_promote i =
    i.own_ready && (i.sibling_online || (i.sibling_ready || not i.sibling_reachable))

unfoldable pub takeover_allowed : Bool → Bool → Bool → Bool → ℕ → ℕ → Bool
takeover_allowed is_online own_faulted peer_unresponsive confirmed cycle confirm_cycle =
    if not is_online && (not own_faulted && (peer_unresponsive && confirmed))
    then leb confirm_cycle cycle && leb (cycle - confirm_cycle) takeover_confirm_valid_cycles
    else false

unfoldable pub both_standby_tiebreak : ℕ → Bool → Bool → Bool
both_standby_tiebreak cycles is_west sibling_online =
    (sibling_online && leb 1 cycles) || (is_west && leb tiebreak_cycles cycles)

unfoldable pub standby_sync_due : Bool → Bool → Bool → Bool → ℕ → ℕ → Bool
standby_sync_due sync_enabled is_online link_up healthy cycle last_try =
    if sync_enabled && (is_online && link_up)
    then (if healthy
        then true
        else (ltb cycle last_try || leb standby_sync_retry_cycles (cycle - last_try)))
    else false

unfoldable pub standby_data_stale : Bool → Bool → Bool → ℕ → ℕ → Bool
standby_data_stale sync_enabled is_online have_snapshot cycle last_rx_cycle =
    if sync_enabled && (not is_online && have_snapshot)
    then (ltb cycle last_rx_cycle || ltb standby_data_timeout_cycles (cycle - last_rx_cycle))
    else false

abbrev decided : Action → Reason → ℕ → Decision
decided a r n = record { action = a; reason = r; both_standby_cycles = n }

-- The body of the sixth rule: both sites STANDBY.
pub both_standby_rule : Input → Decision
unfolding both_standby_tiebreak
both_standby_rule i =
    let cycles = u32 (i.both_standby_cycles + 1) in
    if both_standby_tiebreak cycles i.is_west i.sibling_online
    then decided Action.promote
        (if i.sibling_online then Reason.both_standby_sibling else Reason.both_standby_west) 0
    else decided Action.none Reason.none cycles

-- The body of the seventh rule: the sibling is ONLINE and the own link view is unusable.
pub follow_sibling_rule : Input → Decision
follow_sibling_rule i =
    let cycles = u32 (i.both_standby_cycles + 1) in
    if leb 2 cycles
    then decided Action.promote Reason.both_standby_sibling 0
    else decided Action.none Reason.none cycles

-- The condition of each rule.
pub both_faulted_test : Input → Bool
both_faulted_test i = i.own_faulted && i.peer_faulted

pub peer_faulted_test : Input → Bool
peer_faulted_test i = not i.own_faulted && (not i.is_online && i.peer_faulted)

pub recovered_test : Input → Bool
recovered_test i = i.own_faulted && (i.peer_snapshot_valid && not i.peer_faulted)

pub confirmed_test : Input → Bool
unfolding takeover_allowed
confirmed_test i =
    takeover_allowed i.is_online i.own_faulted i.peer_unresponsive i.takeover_confirmed i.cycle
      i.takeover_confirm_cycle

pub dual_online_test : Input → Bool
unfolding peer_answering
dual_online_test i =
    i.is_online
    && (not i.own_faulted && (not i.peer_faulted && (i.peer_online_now && peer_answering i)))

pub both_standby_test : Input → Bool
unfolding peer_answering
both_standby_test i =
    not i.is_online
    && (not i.own_faulted
        && (i.link_up
            && (not i.peer_unresponsive
                && (peer_answering i && (not i.peer_online_now && not i.peer_faulted)))))

pub follow_sibling_test : Input → Bool
unfolding peer_answering
follow_sibling_test i =
    not i.is_online
    && (not i.own_faulted
        && (i.sibling_online
            && (not i.peer_faulted && not (i.peer_online_now && peer_answering i))))

-- The `if` ladder of `rte_site_role_decide`: the first rule whose condition holds.
pub first_rule : Input → Decision
unfolding both_faulted_test peer_faulted_test recovered_test confirmed_test dual_online_test
    both_standby_test follow_sibling_test both_standby_rule follow_sibling_rule
first_rule i =
    if both_faulted_test i
    then decided Action.renegotiate Reason.both_faulted 0
    else if peer_faulted_test i
    then decided Action.promote Reason.peer_faulted 0
    else if recovered_test i
    then decided Action.demote Reason.recovered 0
    else if confirmed_test i
    then decided Action.promote Reason.dispatcher_confirmed 0
    else if dual_online_test i
    then (if i.lost_peer_while_online
        then decided Action.demote Reason.yield_to_takeover 0
        else decided Action.alarm Reason.dual_online 0)
    else if both_standby_test i
    then both_standby_rule i
    else if follow_sibling_test i
    then follow_sibling_rule i
    else decided Action.none Reason.none 0

abbrev is_promote : Action → Bool
is_promote Action.promote = true
is_promote _ = false

-- The end of `rte_site_role_decide`: a promotion waits until the A/B pair is ready.
pub hold_back : Input → Decision → Decision
unfolding pair_ready_to_promote
hold_back i d =
    if is_promote d.action && not (pair_ready_to_promote i)
    then decided Action.wait Reason.waiting_ready (u32 (i.both_standby_cycles + 1))
    else d

unfoldable pub decide : Input → Decision
unfolding first_rule hold_back
decide i = hold_back i (first_rule i)

unfoldable pub reason_token : Reason → String
reason_token Reason.both_faulted = "both_faulted"
reason_token Reason.peer_faulted = "peer_faulted"
reason_token Reason.recovered = "recovered"
reason_token Reason.dispatcher_confirmed = "dispatcher"
reason_token Reason.both_standby_west = "both_standby_west"
reason_token Reason.both_standby_sibling = "both_standby_sibling"
reason_token Reason.yield_to_takeover = "yield"
reason_token Reason.dual_online = "dual_online"
reason_token Reason.waiting_ready = "waiting_ready"
reason_token Reason.none = "none"
