-- ===== src/Watchdog/Kicks.antt =====
-- Watchdogs over time: kicks of one watchdog between the ticks of the pool.
use platform_rte.Prelude.{
  ℕ, zero, suc, ◌+◌, ◌^◌, ◌<◌, ◌≡◌, inl, inr, refl, sym, subst, List, [], ◌∷◌, some, true, arith,
  get_elem?, set, if◌then◌else◌, Bool-cases,
}
use platform_rte.Platform.Status.{ok}
use platform_rte.Platform.Safestate.{Platform}
use platform_rte.Watchdog.{Slot, Manager, now, slot_of, kicked, kick, put}
use platform_rte.Watchdog.Ticks.{check_slot, check_slots, timer_tick}
use platform_rte.Watchdog.Supervision.{Supervising, IsDue, check_slot_undue}

-- What happens at a time: a kick of the watchdog in question, or a tick.
pub data Beat : Type 0 where
  kick_at : ℕ → Beat
  tick_at : ℕ → Beat

-- The module after some beats. After a tick that does not return nothing else happens.
pub run : Platform → ℕ → Manager → List Beat → Manager
run p i m [] = m
run p i m (kick_at t ∷ bs) = run p i (kick m (some i) (now t)).1 bs
run p i m (tick_at t ∷ bs) =
    let (returns, m', trace) = timer_tick p m (now t) in
    let rest = run p i m' bs in if returns then rest else m'

-- Each tick comes before the deadline, which each kick moves to `w` from then.
abbrev pub InTime : ℕ → ℕ → List Beat → Type 0
InTime w d [] = Unit
InTime w d (kick_at t ∷ bs) = (t + w < 2 ^ 64) × InTime w (t + w) bs
InTime w d (tick_at t ∷ bs) = (t < d) × InTime w d bs

some_injective : (x s : Slot) → some x ≡ some s → x ≡ s
some_injective x s h = cc

get_elem?-set :
    (ss : List Slot) (i : ℕ) (s v : Slot)
    → get_elem? ss i ≡ some s
    → get_elem? (set ss i v) i ≡ some v
get_elem?-set [] i s v h = absurd (ground arith)
get_elem?-set (x ∷ ss) zero s v h = refl
get_elem?-set (x ∷ ss) (suc i) s v h = get_elem?-set ss i s v h

-- A slot that is not due is the same after a tick, even one that does not return.
check_slots_keeps :
    (p : Platform) (t : ℕ) (ss : List Slot) (i : ℕ) (s : Slot)
    → get_elem? ss i ≡ some s
    → ¬ (IsDue t s)
    → get_elem? (check_slots p t ss).0 i ≡ some s
unfolding check_slots
check_slots_keeps p t [] i s h k = absurd (ground arith)
check_slots_keeps p t (x ∷ ss) zero s h k =
    subst (λ v. get_elem? (check_slots p t (v ∷ ss)).0 0 ≡ some s) (sym (some_injective x s h))
      (rw (check_slot_undue p t s k) refl)
check_slots_keeps p t (x ∷ ss) (suc i) s h k = elim (Bool-cases (check_slot p t x).1) [
  | inl e ↦ rw e (check_slots_keeps p t ss i s h k)
  | inr e ↦ rw e h
]

timer_tick_keeps :
    (p : Platform) (m : Manager) (t i : ℕ) (s : Slot)
    → get_elem? m.pool i ≡ some s
    → ¬ (IsDue t s)
    → get_elem? (timer_tick p m (now t)).1.pool i ≡ some s
unfolding timer_tick
timer_tick_keeps p m t i s h k = elim (Bool-cases m.initialized) [
  | inl e ↦ rw e (check_slots_keeps p t m.pool i s h k)
  | inr e ↦ rw e h
]

pub slot_of_live :
    (m : Manager) (i : ℕ) (s : Slot)
    → get_elem? m.pool i ≡ some s
    → s.in_use ≡ true
    → slot_of m (some i) ≡ some s
unfolding slot_of
slot_of_live m i s h k = ground arith

pub kick_live :
    (m : Manager) (i t : ℕ) (s : Slot)
    → get_elem? m.pool i ≡ some s
    → Supervising s
    → kick m (some i) (now t) ≡ (ok, put m (some i) (kicked s t))
unfolding kick
kick_live m i t s h (used, active, fired) = ground (arith, slot_of_live m i s h used)

kick_moves :
    (m : Manager) (i t : ℕ) (s : Slot)
    → get_elem? m.pool i ≡ some s
    → Supervising s
    → get_elem? (kick m (some i) (now t)).1.pool i ≡ some (kicked s t)
kick_moves m i t s h (used, active, fired) =
    rw (kick_live m i t s h (used, active, fired)) (get_elem?-set m.pool i s (kicked s t) h)

-- A watchdog that is kicked in time never fires: if each tick comes before the deadline that the
-- last kick set, and no such deadline reaches 2 ^ 64, it is supervising after any run of kicks and ticks, has not fired, and its counter
-- of firings is as before. The other watchdogs are free to fire, and to stop the run.
pub kicked-InTime :
    (p : Platform) (m : Manager) (i : ℕ) (s : Slot) (bs : List Beat)
    → get_elem? m.pool i ≡ some s
    → Supervising s
    → InTime s.config.timeout_ms s.deadline_ms bs
    → (s' : Slot) × (get_elem? (run p i m bs).pool i ≡ some s')
      × Supervising s'
      × (s'.fires ≡ s.fires)
      × (s'.config ≡ s.config)
unfolding run kicked
kicked-InTime p m i s [] h k w = (s, h, k, refl, refl)
kicked-InTime p m i s (kick_at t ∷ bs) h (used, active, fired) (b, ws) =
    let (s', e, k', f, c) =
      kicked-InTime p (kick m (some i) (now t)).1 i (kicked s t) bs
        (kick_moves m i t s h (used, active, fired)) (used, active, fired)
        (subst (λ d. InTime s.config.timeout_ms d bs) (sym (omega arith)) ws) in
    (s', e, k', f, c)
kicked-InTime p m i s (tick_at t ∷ bs) h k (w, ws) =
    let e = timer_tick_keeps p m t i s h (λ (a, b). omega arith) in
    elim (Bool-cases (timer_tick p m (now t)).0) [
      | inl r ↦ rw r (kicked-InTime p (timer_tick p m (now t)).1 i s bs e k ws)
      | inr r ↦ rw r (s, e, k, refl, refl)
    ]
