-- ===== src/Dual/Negotiator/Tests.antt =====
-- A negotiation of two sites, and the theorems about it at concrete rounds.
use platform_rte.Prelude.{◌≡◌, ◌⊎◌, inl, refl, [], ◌∷◌, true, false, arith}
use platform_rte.Dual.Types.{idle, online, hot_standby, cold_standby, full, degraded}
use platform_rte.Dual.Negotiator.{
  StateFrame, Negotiator, NegotiatorConfig, Round, initialised, refresh, beacon, execute,
}
use platform_rte.Dual.Negotiator.SplitBrain.{stay, go_on, left_runs, never_both_online}
use platform_rte.Dual.Negotiator.Decision.{one_round_decides}

abbrev config_left : NegotiatorConfig
config_left = record {
  has_channel = true;
  config_own_id = 1;
  config_peer_id = 2;
  config_peer_lost_timeout_ms = 500;
  config_has_callback = true;
  resume_own_state = idle;
  resume_own_startup_timestamp_ms = 0;
}

abbrev config_right : NegotiatorConfig
config_right = record config_left { config_own_id = 2; config_peer_id = 1 }

-- Both started at 1000, so that the ids decide.
abbrev left : Negotiator
left = initialised config_left 1000

abbrev right : Negotiator
right = initialised config_right 1000

abbrev frame : StateFrame
frame = record { state = idle; channel_degraded = false; timestamp_ms = 1000 }

abbrev frame_degraded : StateFrame
frame_degraded = record { state = idle; channel_degraded = true; timestamp_ms = 1000 }

-- The left site has one of its links only.
abbrev round_left : Round
round_left = record { status = degraded; arrivals = (frame, 1100) ∷ []; clock = 1200 }

abbrev round_right : Round
round_right = record { status = full; arrivals = (frame_degraded, 1150) ∷ []; clock = 1150 }

never_both_online_example :
    ¬ (((execute left round_left).0.own_state ≡ online) × (right.own_state ≡ online))
unfolding initialised
never_both_online_example =
    never_both_online config_left config_right 1000 1000
      (record { left = (execute left round_left).0; right = right }) refl refl (ground arith)
      (ground arith)
      (go_on (record { left = left; right = right })
        (record { left = (execute left round_left).0; right = right })
        (record { left = (execute left round_left).0; right = right })
        (left_runs (record { left = left; right = right }) round_left (refl, tt))
        (stay (record { left = (execute left round_left).0; right = right })))

one_round_decides_example :
    let a' = (execute left round_left).0 in
    let b' = (execute right round_right).0 in
    (a'.peer_state ≡ b'.own_state)
    × (b'.peer_state ≡ a'.own_state)
    × (((a'.own_state ≡ online) × (b'.own_state ≡ cold_standby))
        ⊎ ((b'.own_state ≡ online) × (a'.own_state ≡ hot_standby)))
unfolding initialised execute beacon refresh
one_round_decides_example =
    one_round_decides left right round_left round_right refl refl (ground arith) (inl refl)
      (inl refl) ([], 1100, refl, omega arith, omega arith)
      ([], 1150, refl, omega arith, omega arith)
