-- ===== src/SiteRole/Policy/Safety.antt =====
-- When `rte_site_role_decide` lets a channel become ONLINE, and when it takes that role away.
use platform_rte.Prelude.{◌+◌, ◌≤◌, ◌<◌, ◌≡◌, ◌⊎◌, ◌≢◌, true, false, arith, if◌then◌else◌}
use platform_rte.SiteRole.Policy.{Input, Action, decide}

-- The counterpart answered within the last two cycles.
abbrev pub Answering : Input → Type 0
Answering i = (i.peer_last_rx_cycle ≤ i.cycle) × (i.cycle ≤ i.peer_last_rx_cycle + 2)

-- The counterpart is silent, and the dispatcher confirmed within 120 cycles that it is not ONLINE.
abbrev pub Confirmed : Input → Type 0
Confirmed i =
    (i.peer_unresponsive ≡ true)
    × (i.takeover_confirmed ≡ true)
    × (i.takeover_confirm_cycle ≤ i.cycle)
    × (i.cycle ≤ i.takeover_confirm_cycle + 120)

-- What may make a healthy STANDBY channel ONLINE.
abbrev pub HasCause : Input → Type 0
HasCause i =
    (i.peer_faulted ≡ true)
    ⊎ Confirmed i
    ⊎ (i.sibling_online ≡ true)
    ⊎ ((i.is_west ≡ true)
        × (i.link_up ≡ true)
        × (i.peer_unresponsive ≡ false)
        × (i.peer_online_now ≡ false)
        × Answering i
        × (5 ≤ i.both_standby_cycles))

-- A promotion is decided only for a STANDBY channel that is not FAULTED, whose A/B pair is ready
-- (it is ready, and its sibling is ONLINE, ready or unreachable), and with a cause: the counterpart
-- is FAULTED; or silent with a dispatcher confirmation at most 120 cycles old; or the sibling is
-- ONLINE; or this is WEST, over an open link the counterpart answers that it is not ONLINE, and
-- that has been so for at least five cycles before this one.
pub promote-HasCause :
    (i : Input)
    → (decide i).action ≡ Action.promote
    → (i.is_online ≡ false)
      × (i.own_faulted ≡ false)
      × (i.own_ready ≡ true)
      × ((i.sibling_online ≡ true) ⊎ (i.sibling_ready ≡ true) ⊎ (i.sibling_reachable ≡ false))
      × HasCause i
unfolding decide
promote-HasCause i h = ground arith

-- What two sites know of each other when both have the other's newest payload.
pub record Mirrored (w e : Input) : Type 0 where
  pub west : w.is_west ≡ true
  pub east : e.is_west ≡ false
  pub west_fault : w.own_faulted ≡ e.peer_faulted
  pub east_fault : e.own_faulted ≡ w.peer_faulted
  pub west_alone : w.sibling_online ≡ false
  pub east_alone : e.sibling_online ≡ false

-- Two sites with a true view of each other's faults, no ONLINE sibling on either side and no
-- dispatcher confirmation at EAST are never both promoted in one cycle.
pub one_site_promotes :
    (w e : Input)
    → Mirrored w e
    → e.takeover_confirmed ≡ false
    → (decide w).action ≡ Action.promote
    → (decide e).action ≢ Action.promote
one_site_promotes w e m quiet pw pe = ground (arith, promote-HasCause w pw, promote-HasCause e pe)

-- A healthy ONLINE channel is never told to promote, wait or renegotiate. It keeps its role if the
-- counterpart is FAULTED, not ONLINE, or has not answered within two cycles; if a healthy
-- counterpart that answers is ONLINE too, it yields exactly if it was cut off while ONLINE, and
-- otherwise only raises the alarm.
pub online_fate :
    (i : Input)
    → i.is_online ≡ true
    → i.own_faulted ≡ false
    → ((i.peer_faulted ≡ true)
          ⊎ (i.peer_online_now ≡ false)
          ⊎ (i.cycle < i.peer_last_rx_cycle)
          ⊎ (i.peer_last_rx_cycle + 2 < i.cycle)
        → (decide i).action ≡ Action.none)
      × (i.peer_faulted ≡ false
          → i.peer_online_now ≡ true
          → Answering i
          → (decide i).action ≡ (if i.lost_peer_while_online then Action.demote else Action.alarm))
unfolding decide
online_fate i on healthy = (λ h. ground arith, λ h1 h2 h3. ground arith)

-- A channel that is FAULTED is never promoted and never waits for a promotion: it renegotiates if
-- the counterpart is FAULTED too, becomes STANDBY if it holds a snapshot of a healthy counterpart,
-- and otherwise stays as it is.
pub faulted_fate :
    (i : Input)
    → i.own_faulted ≡ true
    → (decide i).action ≡ (
        if i.peer_faulted
        then Action.renegotiate
        else if i.peer_snapshot_valid
        then Action.demote
        else Action.none)
unfolding decide
faulted_fate i f = ground arith
