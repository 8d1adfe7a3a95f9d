-- ===== src/Watchdog/Supervision.antt =====
-- The tick fires what is due and nothing else, and a failed clock is not silent.
use platform_rte.Prelude.{
  ℕ, ◌+◌, ◌≤◌, ◌≡◌, ◌∙◌, sym, subst, ◌≢◌, ◌⊎◌, inl, inr, refl, List, [], ◌∷◌, none, some, true,
  false, arith, Bool-cases, u32,
}
use platform_rte.Platform.Status.{Status}
use platform_rte.Platform.Safestate.{safe, logged, Platform, enter, reason_clock_failed}
use platform_rte.Watchdog.{Action, Slot, Manager, now, failed, is_supervising, first_supervising}
use platform_rte.Watchdog.Ticks.{
  timeout_handler, is_due, check_slot, check_slots, timer_tick, clock_failed,
}

-- A watchdog that is allocated, running and not fired.
abbrev pub Supervising : Slot → Type 0
Supervising s = (s.in_use ≡ true) × (s.active ≡ true) × (s.fired ≡ false)

-- It is due: running, and its deadline has come.
abbrev pub IsDue : ℕ → Slot → Type 0
IsDue t s = Supervising s × (s.deadline_ms ≤ t)

-- The actions from which control does not come back.
abbrev pub Halts : Slot → Type 0
Halts s = (s.config.action ≡ Action.safestate) ⊎ (s.config.action ≡ Action.restart)

-- What a check of a slot leaves: a slot that is due is marked as fired and counted once, and its
-- action does not halt; any other slot is left as it was.
abbrev pub Checked : ℕ → Slot → Slot → Type 0
Checked t s s' =
    (IsDue t s
      × (s.config.action ≢ Action.safestate)
      × (s.config.action ≢ Action.restart)
      × (s'.fired ≡ true)
      × (s'.fires ≡ u32 (s.fires + 1))
      × (s'.active ≡ true)
      × (s'.kicks ≡ s.kicks)
      × (s'.config ≡ s.config))
    ⊎ ((¬ (IsDue t s)) × (s' ≡ s))

-- `Checked` of two pools, slot by slot.
abbrev pub AllChecked : ℕ → List Slot → List Slot → Type 0
AllChecked t [] [] = Unit
AllChecked t [] (s' ∷ ss') = ⊥
AllChecked t (s ∷ ss) [] = ⊥
AllChecked t (s ∷ ss) (s' ∷ ss') = Checked t s s' × AllChecked t ss ss'

-- A slot of the pool is due with an action that halts.
abbrev pub SomeHalts : ℕ → List Slot → Type 0
SomeHalts t [] = ⊥
SomeHalts t (s ∷ ss) = (IsDue t s × Halts s) ⊎ SomeHalts t ss

check_slot-Checked :
    (p : Platform) (t : ℕ) (s : Slot)
    → (check_slot p t s).1 ≡ true
    → Checked t s (check_slot p t s).0
unfolding check_slot is_due is_supervising timeout_handler
check_slot-Checked p t s h = ground arith

check_slot-Halts :
    (p : Platform) (t : ℕ) (s : Slot) → (check_slot p t s).1 ≡ false → IsDue t s × Halts s
unfolding check_slot is_due is_supervising timeout_handler
check_slot-Halts p t s h = ground arith

pub check_slot_undue :
    (p : Platform) (t : ℕ) (s : Slot) → ¬ (IsDue t s) → check_slot p t s ≡ (s, true, [])
unfolding check_slot is_due is_supervising timeout_handler
check_slot_undue p t s h = ground arith

check_slots_cons :
    (p : Platform) (t : ℕ) (s : Slot) (ss : List Slot)
    → (((check_slot p t s).1 ≡ true)
        × ((check_slots p t (s ∷ ss)).0 ≡ (check_slot p t s).0 ∷ (check_slots p t ss).0)
        × ((check_slots p t (s ∷ ss)).1 ≡ (check_slots p t ss).1))
      ⊎ (((check_slot p t s).1 ≡ false)
          × ((check_slots p t (s ∷ ss)).0 ≡ (check_slot p t s).0 ∷ ss)
          × ((check_slots p t (s ∷ ss)).1 ≡ false))
unfolding check_slots
check_slots_cons p t s ss = elim (Bool-cases (check_slot p t s).1) [
  | inl h ↦ ground arith
  | inr h ↦ ground arith
]

Checked-returns : (t : ℕ) (s s' : Slot) → Checked t s s' → IsDue t s → ¬ (Halts s)
Checked-returns t s s' (inl (d, a, b, c, _, _, _, _)) k (inl e) = a e
Checked-returns t s s' (inl (d, a, b, c, _, _, _, _)) k (inr e) = b e
Checked-returns t s s' (inr (a, b)) k e = a k

check_slots-Checked :
    (p : Platform) (t : ℕ) (ss : List Slot)
    → ((check_slots p t ss).1 ≡ true)
        × AllChecked t ss (check_slots p t ss).0
        × (¬ (SomeHalts t ss))
      ⊎ (((check_slots p t ss).1 ≡ false) × SomeHalts t ss)
unfolding check_slots
check_slots-Checked p t [] = inl (refl, tt, λ h. h)
check_slots-Checked p t (s ∷ ss) = elim (check_slots_cons p t s ss) [
  | inl (h, e, r) ↦ elim (check_slots-Checked p t ss) [
    | inl (a, b, c) ↦ inl (
      r ∙ a,
      subst (AllChecked t (s ∷ ss)) (sym e) (check_slot-Checked p t s h, b),
      λ k. elim k [
        | inl (d, k') ↦ Checked-returns t s (check_slot p t s).0 (check_slot-Checked p t s h) d k'
        | inr k' ↦ c k'
      ],
    )
    | inr (a, b) ↦ inr (r ∙ a, inr b)
  ]
  | inr (h, e, r) ↦ inr (r, inl (check_slot-Halts p t s h))
]

-- A tick on an initialised module that reads the clock: either it returns, no slot that was due had
-- an action that halts, each slot that was due is marked as fired and counted once, and every other
-- slot is unchanged; or it does not return, and some slot was due with an action that halts.
pub timer_tick_fires :
    (p : Platform) (m : Manager) (t : ℕ)
    → m.initialized ≡ true
    → let (returns, m', trace) = timer_tick p m (now t) in
      (m'.initialized ≡ true)
      × ((returns ≡ true) × AllChecked t m.pool m'.pool × (¬ (SomeHalts t m.pool))
          ⊎ ((returns ≡ false) × SomeHalts t m.pool))
unfolding timer_tick
timer_tick_fires p m t h = rw h (refl, check_slots-Checked p t m.pool)

abbrev pub AnySupervising : List Slot → Type 0
AnySupervising [] = ⊥
AnySupervising (s ∷ ss) = Supervising s ⊎ AnySupervising ss

first_supervising_finds :
    (ss : List Slot)
    → ((first_supervising ss ≡ none) × (¬ (AnySupervising ss)))
      ⊎ ((s : Slot) × (first_supervising ss ≡ some s) × AnySupervising ss)
unfolding first_supervising is_supervising
first_supervising_finds [] = inl (refl, λ h. h)
first_supervising_finds (s ∷ ss) = elim (Bool-cases (is_supervising s)) [
  | inl h ↦ inr (s, rw h refl, inl (ground arith))
  | inr h ↦ elim (first_supervising_finds ss) [
    | inl (e, k) ↦ inl (rw h e, λ x. elim x [ inl a ↦ ground arith | inr b ↦ k b ])
    | inr (s', e, k) ↦ inr (s', rw h e, inr k)
  ]
]

-- A tick on a failed clock changes no state. It does nothing if no watchdog is supervising;
-- otherwise it logs, calls the SAFE handler with the clock's reason, and does not return.
pub timer_tick_clock_failed :
    (p : Platform) (m : Manager) (e : Status)
    → m.initialized ≡ true
    → ((timer_tick p m (failed e) ≡ (true, m, [])) × (¬ (AnySupervising m.pool)))
      ⊎ ((timer_tick p m (failed e) ≡ (
        false,
        m,
        logged "watchdog clock failed - entering SAFE state" ∷ (enter p safe reason_clock_failed).1,
      ))
          × AnySupervising m.pool)
unfolding timer_tick clock_failed enter
timer_tick_clock_failed p m e h = elim (first_supervising_finds m.pool) [
  | inl (f, k) ↦ inl (ground arith, k)
  | inr (s, f, k) ↦ inr (ground arith, k)
]
