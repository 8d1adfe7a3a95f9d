-- ===== src/SiteRole/Policy/Tiebreak.antt =====
-- The stand-off of two STANDBY sites over consecutive cycles, with the counter that the caller keeps.
use platform_rte.Prelude.{
  ℕ, ◌+◌, ◌-◌, ◌^◌, ◌≤◌, ◌<◌, ◌≡◌, ◌⊎◌, inl, inr, true, false, List, [], ◌∷◌, arith, length, All,
}
use platform_rte.SiteRole.Policy.{Input, Action, Reason, decide}

-- The facts of a cycle with the counter that the last decision returned.
abbrev pub with_counter : Input → ℕ → Input
with_counter i n = record i { both_standby_cycles = n }

-- The counter after the decisions of some cycles.
pub counter_after : ℕ → List Input → ℕ
counter_after n [] = n
counter_after n (i ∷ is) = counter_after (decide (with_counter i n)).both_standby_cycles is

-- WEST is a healthy STANDBY channel, and over an open link the counterpart answers that it is
-- neither ONLINE nor FAULTED. No sibling is ONLINE and no confirmation is in.
pub record IsStandoff (i : Input) : Type 0 where
  pub standby : i.is_online ≡ false
  pub healthy : i.own_faulted ≡ false
  pub west : i.is_west ≡ true
  pub linked : i.link_up ≡ true
  pub responsive : i.peer_unresponsive ≡ false
  pub heard : (i.peer_last_rx_cycle ≤ i.cycle) × (i.cycle ≤ i.peer_last_rx_cycle + 2)
  pub peer_standby : i.peer_online_now ≡ false
  pub peer_healthy : i.peer_faulted ≡ false
  pub sibling_standby : i.sibling_online ≡ false

abbrev pub IsUnready : Input → Type 0
IsUnready i = (i.own_ready ≡ false) ⊎ ((i.sibling_ready ≡ false) × (i.sibling_reachable ≡ true))

abbrev pub IsReady : Input → Type 0
IsReady i = (i.own_ready ≡ true) × ((i.sibling_ready ≡ true) ⊎ (i.sibling_reachable ≡ false))

standoff_counts :
    (i : Input) (n : ℕ)
    → IsStandoff i
    → n < 2 ^ 32 - 1
    → (n < 5) ⊎ IsUnready i
    → (decide (with_counter i n)).both_standby_cycles ≡ n + 1
unfolding decide
standoff_counts i n s h k = ground arith

standoff_promotes :
    (i : Input) (n : ℕ)
    → IsStandoff i
    → n < 2 ^ 32 - 1
    → 5 ≤ n
    → IsReady i
    → ((decide (with_counter i n)).action ≡ Action.promote)
      × ((decide (with_counter i n)).reason ≡ Reason.both_standby_west)
      × ((decide (with_counter i n)).both_standby_cycles ≡ 0)
unfolding decide
standoff_promotes i n s h k r = ground arith

early_counter :
    (n : ℕ) (is : List Input)
    → All IsStandoff is
    → n + length is ≤ 5
    → counter_after n is ≡ n + length is
unfolding counter_after
early_counter n [] s h = omega arith
early_counter n (i ∷ is) (s, ss) h =
    rw (standoff_counts i n s (omega arith) (inl (omega arith)))
      (omega (arith, early_counter (n + 1) is ss (omega arith)))

unready_counter :
    (n : ℕ) (is : List Input)
    → All (λ i. IsStandoff i × IsUnready i) is
    → n + length is < 2 ^ 32
    → counter_after n is ≡ n + length is
unfolding counter_after
unready_counter n [] s h = omega arith
unready_counter n (i ∷ is) ((s, u), ss) h =
    rw (standoff_counts i n s (omega arith) (inr u))
      (omega (arith, unready_counter (n + 1) is ss (omega arith)))

-- The stand-off ends: after five cycles of it, or after more (fewer than 2 ^ 32 - 1) in which the
-- A/B pair was not ready, the first cycle in which the pair is ready promotes WEST, with that
-- reason, and resets the counter.
pub standoff_resolves :
    (is : List Input) (i : Input)
    → IsStandoff i
    → IsReady i
    → ((length is ≡ 5) × All IsStandoff is)
      ⊎ ((5 ≤ length is) × (length is < 2 ^ 32 - 1) × All (λ i. IsStandoff i × IsUnready i) is)
    → let d = decide (with_counter i (counter_after 0 is)) in
      (d.action ≡ Action.promote)
      × (d.reason ≡ Reason.both_standby_west)
      × (d.both_standby_cycles ≡ 0)
standoff_resolves is i s r (inl (n, ss)) =
    rw (early_counter 0 is ss (omega arith))
      (standoff_promotes i (0 + length is) s (omega arith) (omega arith) r)
standoff_resolves is i s r (inr (n, m, ss)) =
    rw (unready_counter 0 is ss (omega arith))
      (standoff_promotes i (0 + length is) s (omega arith) (omega arith) r)

-- And not earlier: while fewer than five such cycles lie behind, the decision is to do nothing and
-- to count on.
pub standoff_waits :
    (is : List Input) (i : Input)
    → IsStandoff i
    → All IsStandoff is
    → length is < 5
    → ((decide (with_counter i (counter_after 0 is))).action ≡ Action.none)
      × ((decide (with_counter i (counter_after 0 is))).both_standby_cycles ≡ length is + 1)
unfolding decide
standoff_waits is i s ss n = ground (arith, early_counter 0 is ss (omega arith))
