-- ===== src/SiteRole/Cycle/Causes/Conditions.antt =====
-- The causes of an ONLINE role, written on the service before a cycle, its local facts and what arrives.
use platform_rte.Prelude.{
  ℕ, ◌+◌, ◌-◌, ◌≤◌, ◌<◌, ◌≡◌, ◌≢◌, ◌⊎◌, Option, none, some, true, false, List, get_or,
}
use platform_rte.Buffer.{copy_to}
use platform_rte.Platform.Status.{is_ok}
use platform_rte.SiteRole.Types.{SiteRole, Local, Traffic, Sibling, valid_marker}

-- The sibling's last frame and its cycle, once this cycle's frame is read.
abbrev pub sibling_now : SiteRole → Option Sibling → Sibling
sibling_now rs none = rs.sibling
sibling_now rs (some frame) = frame

abbrev pub sibling_now_cycle : SiteRole → ℕ → Option Sibling → ℕ
sibling_now_cycle rs cycle none = rs.sibling_rx_cycle
sibling_now_cycle rs cycle (some frame) = cycle

-- The bytes of the receive buffer once this cycle's frame is copied into it.
abbrev pub frame_now : SiteRole → Traffic → List ℕ
frame_now rs t = copy_to rs.rx_buf 0 t.arrival.1

-- A frame arrives, on a link that is open or can be opened.
abbrev pub Arrives : SiteRole → Traffic → Type 0
Arrives rs t = (is_ok t.arrival.0 ≡ true) × ((rs.link_up ≡ true) ⊎ (is_ok t.open_status ≡ true))

-- The sibling's facts are those of its frames, or, without a source of frames, the application's.
abbrev pub SiblingOnline : SiteRole → Local → Traffic → Type 0
SiblingOnline rs l t =
    ((rs.cfg.has_sibling_source ≡ true)
      × ((sibling_now rs t.sibling_frame).known ≡ true)
      × ((sibling_now rs t.sibling_frame).online ≡ true))
    ⊎ ((rs.cfg.has_sibling_source ≡ false) × (l.sibling_online ≡ true))

abbrev pub SiblingReady : SiteRole → Local → Traffic → Type 0
SiblingReady rs l t =
    ((rs.cfg.has_sibling_source ≡ true)
      × ((sibling_now rs t.sibling_frame).known ≡ true)
      × ((sibling_now rs t.sibling_frame).ready ≡ true))
    ⊎ ((rs.cfg.has_sibling_source ≡ false) × (l.sibling_ready ≡ true))

abbrev pub SiblingUnreachable : SiteRole → ℕ → Local → Traffic → Type 0
SiblingUnreachable rs cycle l t =
    ((rs.cfg.has_sibling_source ≡ true)
      × (((sibling_now rs t.sibling_frame).known ≡ false)
          ⊎ (cycle < sibling_now_cycle rs cycle t.sibling_frame)
          ⊎ (sibling_now_cycle rs cycle t.sibling_frame + rs.cfg.sibling_reach_cycles < cycle)))
    ⊎ ((rs.cfg.has_sibling_source ≡ false) × (l.sibling_reachable ≡ false))

-- The counterpart was FAULTED, or says so in this cycle's frame.
abbrev pub PeerFaulted : SiteRole → Traffic → Type 0
PeerFaulted rs t = (rs.peer_faulted ≡ true) ⊎ (Arrives rs t × (get_or (frame_now rs t) 0 0 ≢ 0))

-- The counterpart is silent, and the dispatcher confirmed at most 120 cycles ago that it is not ONLINE.
abbrev pub TakeoverConfirmed : SiteRole → ℕ → Type 0
TakeoverConfirmed rs cycle =
    (rs.peer_unresponsive ≡ true)
    × (rs.takeover_confirmed ≡ true)
    × (rs.takeover_confirm_cycle ≤ cycle)
    × (cycle ≤ rs.takeover_confirm_cycle + 120)

-- The counterpart answered within two cycles that it is not ONLINE, or this cycle's frame says so.
abbrev pub PeerStandby : SiteRole → ℕ → Traffic → Type 0
PeerStandby rs cycle t =
    ((rs.peer_unresponsive ≡ false)
      × (rs.peer_online_now ≡ false)
      × (rs.peer_last_rx_cycle ≤ cycle)
      × (cycle ≤ rs.peer_last_rx_cycle + 2))
    ⊎ (Arrives rs t
        × ((get_or (frame_now rs t) 0 0 ≢ 0)
            ⊎ (get_or (frame_now rs t) (rs.cfg.frame_size - 1) 0 ≢ valid_marker)))

-- Both sites wait for the other, and have done so for five cycles before this one.
abbrev pub StandOff : SiteRole → ℕ → Traffic → Type 0
StandOff rs cycle t =
    (rs.cfg.is_west ≡ true)
    × ((rs.link_up ≡ true) ⊎ (is_ok t.open_status ≡ true))
    × PeerStandby rs cycle t
    × (5 ≤ rs.both_standby_cycles)

-- What may make a STANDBY channel ONLINE.
abbrev pub OnlineCause : SiteRole → ℕ → Local → Traffic → Type 0
OnlineCause rs cycle l t =
    ((l.faulted ≡ false)
      × (l.own_ready ≡ true)
      × (SiblingOnline rs l t ⊎ SiblingReady rs l t ⊎ SiblingUnreachable rs cycle l t)
      × (PeerFaulted rs t
          ⊎ TakeoverConfirmed rs cycle
          ⊎ SiblingOnline rs l t
          ⊎ StandOff rs cycle t))
    ⊎ ((l.faulted ≡ true) × PeerFaulted rs t × (rs.cfg.is_west ≡ true))
