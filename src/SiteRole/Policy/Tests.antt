-- ===== src/SiteRole/Policy/Tests.antt =====
-- Decisions at concrete facts, and the theorems of the policy applied to them.
use platform_rte.Prelude.{◌≡◌, ◌≢◌, ◌⊎◌, refl, inl, inr, List, [], ◌∷◌, true, false, arith, All}
use platform_rte.SiteRole.Policy.{
  Input, Action, Reason, decide, standby_sync_due, standby_data_stale,
}
use platform_rte.SiteRole.Policy.Safety.{HasCause, Mirrored, promote-HasCause, one_site_promotes}
use platform_rte.SiteRole.Policy.Tiebreak.{
  IsStandoff, with_counter, counter_after, standoff_resolves,
}

-- WEST, STANDBY and ready, on a single channel; the counterpart answered in cycle 50.
abbrev waiting_west : Input
waiting_west = record {
  is_online = false;
  own_faulted = false;
  is_west = true;
  link_up = true;
  peer_unresponsive = false;
  cycle = 50;
  peer_last_rx_cycle = 50;
  peer_online_now = false;
  peer_faulted = false;
  peer_snapshot_valid = false;
  sibling_online = false;
  takeover_confirmed = false;
  takeover_confirm_cycle = 0;
  lost_peer_while_online = false;
  both_standby_cycles = 5;
  own_ready = true;
  sibling_ready = false;
  sibling_reachable = false;
}

abbrev waiting_east : Input
waiting_east = record waiting_west { is_west = false }

abbrev online_west : Input
online_west = record waiting_west { is_online = true; peer_online_now = true }

abbrev faulted_west : Input
faulted_west = record waiting_west { own_faulted = true; peer_snapshot_valid = true }

west_promotes : (decide waiting_west).action ≡ Action.promote
unfolding decide
west_promotes = refl

-- Without readiness the promotion waits.
west_waits : (decide (record waiting_west { own_ready = false })).action ≡ Action.wait
unfolding decide
west_waits = refl

-- Silence alone never promotes; a confirmation in time does.
silence_waits :
    (decide (record waiting_west { peer_unresponsive = true; link_up = false })).action
    ≡ Action.none
unfolding decide
silence_waits = refl

confirmed_promotes :
    (decide (record waiting_west {
      peer_unresponsive = true;
      takeover_confirmed = true;
      takeover_confirm_cycle = 40;
    })).action
    ≡ Action.promote
unfolding decide
confirmed_promotes = refl

sync_retries : standby_sync_due true true true false 25 15 ≡ true
unfolding standby_sync_due
sync_retries = refl

stale_after_three : standby_data_stale true false true 24 20 ≡ true
unfolding standby_data_stale
stale_after_three = refl

promote-HasCause_example :
    (waiting_west.is_online ≡ false)
    × (waiting_west.own_faulted ≡ false)
    × (waiting_west.own_ready ≡ true)
    × ((waiting_west.sibling_online ≡ true)
        ⊎ (waiting_west.sibling_ready ≡ true)
        ⊎ (waiting_west.sibling_reachable ≡ false))
    × HasCause waiting_west
promote-HasCause_example = promote-HasCause waiting_west west_promotes

sites-Mirrored : Mirrored waiting_west waiting_east
sites-Mirrored = record {
  west = refl;
  east = refl;
  west_fault = refl;
  east_fault = refl;
  west_alone = refl;
  east_alone = refl;
}

one_site_promotes_example : (decide waiting_east).action ≢ Action.promote
one_site_promotes_example =
    one_site_promotes waiting_west waiting_east sites-Mirrored refl west_promotes

west-IsStandoff : IsStandoff waiting_west
west-IsStandoff = record {
  standby = refl;
  healthy = refl;
  west = refl;
  linked = refl;
  responsive = refl;
  heard = (omega arith, omega arith);
  peer_standby = refl;
  peer_healthy = refl;
  sibling_standby = refl;
}

abbrev five_cycles : List Input
five_cycles = waiting_west ∷ waiting_west ∷ waiting_west ∷ waiting_west ∷ waiting_west ∷ []

abbrev two_cycles : List Input
two_cycles = waiting_west ∷ waiting_west ∷ []

five-IsStandoff : All IsStandoff five_cycles
five-IsStandoff = (
  west-IsStandoff,
  (west-IsStandoff, (west-IsStandoff, (west-IsStandoff, (west-IsStandoff, tt)))),
)

standoff_resolves_example :
    let d = decide (with_counter waiting_west (counter_after 0 five_cycles)) in
    (d.action ≡ Action.promote)
    × (d.reason ≡ Reason.both_standby_west)
    × (d.both_standby_cycles ≡ 0)
standoff_resolves_example =
    standoff_resolves five_cycles waiting_west west-IsStandoff (refl, inr refl)
      (inl (refl, five-IsStandoff))
