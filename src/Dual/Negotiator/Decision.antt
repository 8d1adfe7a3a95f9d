-- ===== src/Dual/Negotiator/Decision.antt =====
-- How a role is decided, and how it ends.
use platform_rte.Prelude.{
  ℕ, ◌+◌, ◌<◌, ◌≤◌, ◌≡◌, ◌≢◌, ◌⊎◌, refl, List, [], ◌∷◌, ◌++◌, true, false, not, arith,
}
use platform_rte.Dual.Types.{idle, unknown, online, standby}
use platform_rte.Dual.Negotiator.{
  StateFrame, Negotiator, Round, decide_online, process_peer_frame, process_all, contact_recent,
  next_states, update_states, refresh, beacon, execute, is_full,
}

abbrev pub IsUndecided : Negotiator → Type 0
IsUndecided n = (n.own_state ≡ idle) ⊎ (n.own_state ≡ unknown)

-- The negotiator that a round's update starts from: with the channel's status and the frames.
abbrev pub informed : Negotiator → Round → Negotiator
informed n r = process_all (refresh n r.status) r.arrivals

-- The peer was heard, and less than the timeout ago.
abbrev pub InContact : Negotiator → ℕ → Type 0
InContact n clock =
    (n.have_last_peer_seen ≡ true)
    × (n.last_peer_seen_ms ≤ clock)
    × (clock < n.last_peer_seen_ms + n.peer_lost_timeout_ms)

-- The site started earlier than its peer, or at the same time with the smaller id.
abbrev pub Precedes : Negotiator → Type 0
Precedes n =
    (n.own_startup_timestamp_ms < n.peer_startup_timestamp_ms)
    ⊎ ((n.own_startup_timestamp_ms ≡ n.peer_startup_timestamp_ms) × (n.own_id < n.peer_id))

process_all_keeps :
    (n : Negotiator) (fs : List (StateFrame × ℕ))
    → ((process_all n fs).own_state ≡ n.own_state)
      × ((process_all n fs).own_id ≡ n.own_id)
      × ((process_all n fs).peer_id ≡ n.peer_id)
      × ((process_all n fs).own_startup_timestamp_ms ≡ n.own_startup_timestamp_ms)
      × ((process_all n fs).own_channel_degraded ≡ n.own_channel_degraded)
      × ((process_all n fs).peer_lost_timeout_ms ≡ n.peer_lost_timeout_ms)
unfolding process_all process_peer_frame
process_all_keeps n [] = (refl, refl, refl, refl, refl, refl)
process_all_keeps n ((f, clock) ∷ fs) = process_all_keeps (process_peer_frame n f clock) fs

-- The role of a site after a round, from what it knows once it has read the frames of the round: an
-- ONLINE site stays ONLINE, whatever arrives; a site that never heard its peer keeps its state, and one
-- that lost contact is UNKNOWN; in contact, an undecided site that precedes its peer becomes ONLINE,
-- and any other site is the standby of its peer.
pub execute_role :
    (n : Negotiator) (r : Round)
    → let m = informed n r in
      let own = (execute n r).0.own_state in
      (m.own_state ≡ n.own_state)
      × (((n.own_state ≡ online) × (own ≡ online))
          ⊎ ((n.own_state ≢ online)
              × (m.have_last_peer_seen ≡ true)
              × (¬ (InContact m r.clock))
              × (own ≡ unknown))
          ⊎ ((m.have_last_peer_seen ≡ false) × (own ≡ n.own_state))
          ⊎ (IsUndecided n × InContact m r.clock × Precedes m × (own ≡ online))
          ⊎ ((n.own_state ≢ online)
              × InContact m r.clock
              × (IsUndecided n → ¬ (Precedes m))
              × (own ≡ standby m.peer_channel_degraded)))
unfolding execute refresh update_states next_states contact_recent decide_online
execute_role n r = ground (arith, process_all_keeps (refresh n r.status) r.arrivals)

process_all-append :
    (n : Negotiator) (fs : List (StateFrame × ℕ)) (f : StateFrame) (clock : ℕ)
    → process_all n (fs ++ (f, clock) ∷ []) ≡ process_peer_frame (process_all n fs) f clock
unfolding process_all
process_all-append n [] f clock = refl
process_all-append n ((g, c) ∷ fs) f clock =
    process_all-append (process_peer_frame n g c) fs f clock

-- The last frame of a round is the one that the peer sends in its round, and the update follows
-- before the contact counts as lost.
abbrev pub HearsLast : Negotiator → Round → StateFrame → Type 0
HearsLast n r f =
    (early : List (StateFrame × ℕ)) × (clock : ℕ) × (r.arrivals ≡ early ++ (f, clock) ∷ [])
    × (clock ≤ r.clock)
    × (r.clock < clock + n.peer_lost_timeout_ms)

-- The states that a site has after such a round, if it was undecided.
decided_states :
    (n : Negotiator) (r : Round) (f : StateFrame)
    → IsUndecided n
    → HearsLast n r f
    → let wins = decide_online n.own_id n.own_startup_timestamp_ms n.peer_id f.timestamp_ms in
      ((wins ≡ true)
        × ((execute n r).0.own_state ≡ online)
        × ((execute n r).0.peer_state ≡ standby (not (is_full r.status))))
      ⊎ ((wins ≡ false)
          × ((execute n r).0.own_state ≡ standby f.channel_degraded)
          × ((execute n r).0.peer_state ≡ online))
unfolding execute refresh update_states next_states contact_recent process_peer_frame
decided_states n r f u (early, clock, e, b, c) = ground (
  arith,
  e,
  process_all-append (refresh n r.status) early f clock,
  process_all_keeps (refresh n r.status) early,
)

decide_online_total : (i t j u : ℕ) → i ≢ j → decide_online j u i t ≡ not (decide_online i t j u)
unfolding decide_online
decide_online_total i t j u h = ground arith

-- Two undecided sites that are configured as each other's peers, with different ids, and whose rounds
-- each end with the frame that the other sends in its round, in time, are decided: one is ONLINE and
-- the other is the standby of a site with that channel, and each sees the other's state as it is.
pub one_round_decides :
    (a b : Negotiator) (ra rb : Round)
    → a.peer_id ≡ b.own_id
    → b.peer_id ≡ a.own_id
    → a.own_id ≢ b.own_id
    → IsUndecided a
    → IsUndecided b
    → HearsLast a ra (execute b rb).1
    → HearsLast b rb (execute a ra).1
    → let a' = (execute a ra).0 in
      let b' = (execute b rb).0 in
      (a'.peer_state ≡ b'.own_state)
      × (b'.peer_state ≡ a'.own_state)
      × (((a'.own_state ≡ online) × (b'.own_state ≡ standby (not (is_full ra.status))))
          ⊎ ((b'.own_state ≡ online) × (a'.own_state ≡ standby (not (is_full rb.status)))))
unfolding beacon execute refresh
one_round_decides a b ra rb ia ib d ua ub ha hb = ground (
  arith,
  decided_states a ra (execute b rb).1 ua ha,
  decided_states b rb (execute a ra).1 ub hb,
  decide_online_total a.own_id a.own_startup_timestamp_ms b.own_id b.own_startup_timestamp_ms d,
)
