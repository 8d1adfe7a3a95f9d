-- ===== src/Dual/Types.antt =====
-- The enumerations of include/rte/redundancy/dual/rte_dual_types.h.
use platform_rte.Prelude.{Bool, true, false}

-- `rte_dual_state_t`
pub data DualState : Type 0 where
  idle : DualState
  unknown : DualState
  online : DualState
  hot_standby : DualState
  cold_standby : DualState

-- `rte_dual_channel_status_t`
pub data ChannelStatus : Type 0 where
  down : ChannelStatus
  degraded : ChannelStatus
  full : ChannelStatus

-- The label of the standby side, from the degradation of the side that it backs up.
abbrev pub standby : Bool → DualState
standby true = cold_standby
standby false = hot_standby
