-- ===== src/Dual/Negotiator/SplitBrain.antt =====
-- Two sites that negotiate over links which may lose, delay, repeat and reorder their frames.
use platform_rte.Prelude.{ℕ, ◌≡◌, ◌≢◌, ◌∙◌, refl, sym, List, [], ◌∷◌, true, arith, All}
use platform_rte.Dual.Types.{online}
use platform_rte.Dual.Negotiator.{
  StateFrame, Negotiator, NegotiatorConfig, Round, initialised, decide_online, process_peer_frame,
  process_all, next_states, update_states, refresh, execute,
}

pub record Sites : Type 0 where
  pub left : Negotiator
  pub right : Negotiator

-- Frames of a site: each carries its startup time, whatever else it says and however old it is.
abbrev pub FromSite : Negotiator → List (StateFrame × ℕ) → Type 0
FromSite n arrivals =
    All (λ (f : StateFrame × ℕ). f.0.timestamp_ms ≡ n.own_startup_timestamp_ms) arrivals

-- One of the sites runs a round, with frames of the other.
pub data Step : Sites → Sites → Type 0 where
  left_runs :
      (s : Sites) (r : Round)
      → FromSite s.right r.arrivals
      → Step s (record s { left = (execute s.left r).0 })
  right_runs :
      (s : Sites) (r : Round)
      → FromSite s.left r.arrivals
      → Step s (record s { right = (execute s.right r).0 })

-- Any number of rounds, in any order.
pub data Steps : Sites → Sites → Type 0 where
  stay : (s : Sites) → Steps s s
  go_on : (s s' s'' : Sites) → Step s s' → Steps s' s'' → Steps s s''

-- What a site knows of the other is true, and it is ONLINE only if it precedes the other.
IsSound : Negotiator → Negotiator → Type 0
IsSound n peer =
    (n.peer_id ≡ peer.own_id)
    × (n.have_last_peer_seen ≡ true → n.peer_startup_timestamp_ms ≡ peer.own_startup_timestamp_ms)
    × (n.own_state ≡ online
        → decide_online n.own_id n.own_startup_timestamp_ms peer.own_id
            peer.own_startup_timestamp_ms
          ≡ true)

-- What no round changes.
SameIdentity : Negotiator → Negotiator → Type 0
SameIdentity n n' =
    (n'.own_id ≡ n.own_id)
    × (n'.peer_id ≡ n.peer_id)
    × (n'.own_startup_timestamp_ms ≡ n.own_startup_timestamp_ms)

process_all-IsSound :
    (n peer : Negotiator) (fs : List (StateFrame × ℕ))
    → FromSite peer fs
    → IsSound n peer
    → IsSound (process_all n fs) peer × SameIdentity n (process_all n fs)
unfolding IsSound SameIdentity process_all process_peer_frame
process_all-IsSound n peer [] h s = (s, (refl, refl, refl))
process_all-IsSound n peer ((f, clock) ∷ fs) (e, h) (i, k, o) =
    process_all-IsSound (process_peer_frame n f clock) peer fs h (i, (λ _. e), o)

update_states-IsSound :
    (n peer : Negotiator) (clock : ℕ)
    → IsSound n peer
    → IsSound (update_states n clock).0 peer × SameIdentity n (update_states n clock).0
unfolding IsSound SameIdentity update_states next_states decide_online
update_states-IsSound n peer clock h = ground arith

execute-IsSound :
    (n peer : Negotiator) (r : Round)
    → FromSite peer r.arrivals
    → IsSound n peer
    → IsSound (execute n r).0 peer × SameIdentity n (execute n r).0
unfolding IsSound SameIdentity execute refresh
execute-IsSound n peer r h s =
    let m = process_all (refresh n r.status) r.arrivals in
    let (s1, (a1, b1, c1)) = process_all-IsSound (refresh n r.status) peer r.arrivals h s in
    let (s2, (a2, b2, c2)) = update_states-IsSound m peer r.clock s1 in
    (s2, (a2 ∙ a1, b2 ∙ b1, c2 ∙ c1))

-- Both sites are sound.
AllSound : Sites → Type 0
AllSound s = IsSound s.left s.right × IsSound s.right s.left

IsSound-transfer :
    (n peer peer' : Negotiator) → SameIdentity peer peer' → IsSound n peer → IsSound n peer'
unfolding IsSound SameIdentity
IsSound-transfer n peer peer' (a, b, c) (i, k, o) = (i ∙ sym a, (λ h. k h ∙ sym c), rw (a, c) o)

Step-AllSound : (s s' : Sites) → Step s s' → AllSound s → AllSound s'
unfolding AllSound
Step-AllSound _ _ (left_runs s r h) (l, k) =
    let (l', same) = execute-IsSound s.left s.right r h l in
    (l', IsSound-transfer s.right s.left (execute s.left r).0 same k)
Step-AllSound _ _ (right_runs s r h) (l, k) =
    let (k', same) = execute-IsSound s.right s.left r h k in
    (IsSound-transfer s.left s.right (execute s.right r).0 same l, k')

Steps-AllSound : (s s' : Sites) → Steps s s' → AllSound s → AllSound s'
Steps-AllSound _ _ (stay s) h = h
Steps-AllSound _ _ (go_on s s' s'' st sts) h = Steps-AllSound s' s'' sts (Step-AllSound s s' st h)

antisymmetric : (i t j u : ℕ) → decide_online i t j u ≡ true → decide_online j u i t ≡ true → ⊥
unfolding decide_online
antisymmetric i t j u h k = ground arith

-- Two sites that are configured as each other's peers and do not resume as ONLINE are never both
-- ONLINE, whenever each of them runs its rounds and whatever happens to the frames between them,
-- as long as a frame carries the startup time of the site that it is from.
pub never_both_online :
    (left right : NegotiatorConfig) (t u : ℕ) (s : Sites)
    → left.config_peer_id ≡ right.config_own_id
    → right.config_peer_id ≡ left.config_own_id
    → left.resume_own_state ≢ online
    → right.resume_own_state ≢ online
    → Steps (record { left = initialised left t; right = initialised right u }) s
    → ¬ ((s.left.own_state ≡ online) × (s.right.own_state ≡ online))
unfolding AllSound IsSound initialised
never_both_online left right t u s il ir nl nr run (ol, or) =
    let start : Sites = record { left = initialised left t; right = initialised right u } in
    let ((i, k, o), (i', k', o')) = Steps-AllSound start s run (
      (il, (λ h. ground arith), (λ h. absurd (nl h))),
      (ir, (λ h. ground arith), (λ h. absurd (nr h))),
    ) in
    antisymmetric s.left.own_id s.left.own_startup_timestamp_ms s.right.own_id
      s.right.own_startup_timestamp_ms (o ol) (o' or)
