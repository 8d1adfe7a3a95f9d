-- ===== src/Watchdog/Pool.antt =====
-- What an allocation of a watchdog does to the pool.
use platform_rte.Prelude.{
  ℕ, zero, suc, ◌+◌, ◌≡◌, ◌≢◌, ◌⊎◌, inl, inr, refl, ap, List, [], ◌∷◌, ◌&&◌, Option, some, none,
  true, false, arith, All, Bool-cases,
}
use platform_rte.Platform.Status.{ok, resource_exhausted}
use platform_rte.Platform.Safestate.{Platform, logged}
use platform_rte.Platform.Lifecycle.{check_setup_allowed}
use platform_rte.Watchdog.{
  needs_handler, is_none, Action, Slot, WatchdogConfig, Manager, claim, create, is_valid_action,
  zero_slot,
}

-- The actions that `rte_watchdog_create` accepts with a callback, or with none.
abbrev pub Accepts : Action → Option ℕ → Type 0
Accepts Action.log cb = Unit
Accepts Action.safestate cb = Unit
Accepts Action.restart cb = Unit
Accepts Action.failover cb = cb ≢ none
Accepts Action.custom cb = cb ≢ none
Accepts (Action.other n) cb = ⊥

abbrev pub IsValidConfig : WatchdogConfig → Type 0
IsValidConfig c = (c.timeout_ms ≢ 0) × Accepts c.action c.custom_action

abbrev pub IsUsed : Slot → Type 0
IsUsed s = s.in_use ≡ true

-- The slot that an allocation hands out.
abbrev pub fresh_slot : WatchdogConfig → Slot
fresh_slot c = record zero_slot { in_use = true; config = c }

-- Slot `n` is the first free one of a pool, and `ss'` is the pool with `v` there.
abbrev pub FirstFree : List Slot → ℕ → Slot → List Slot → Type 0
FirstFree [] n v ss' = ⊥
FirstFree (s ∷ ss) zero v ss' = (s.in_use ≡ false) × (ss' ≡ v ∷ ss)
FirstFree (s ∷ ss) (suc n) v ss' =
    IsUsed s × ((rest : List Slot) × (ss' ≡ s ∷ rest) × FirstFree ss n v rest)

claim-FirstFree :
    (c : WatchdogConfig) (i : ℕ) (ss : List Slot)
    → ((claim c i ss ≡ none) × All IsUsed ss)
      ⊎ ((n : ℕ) × (ss' : List Slot) × (claim c i ss ≡ some (i + n, ss'))
          × FirstFree ss n (fresh_slot c) ss')
unfolding claim
claim-FirstFree c i [] = inl (refl, tt)
claim-FirstFree c i (s ∷ ss) = elim (Bool-cases s.in_use) [
  | inl h ↦ elim (claim-FirstFree c (suc i) ss) [
    | inl (e, k) ↦ inl (rw (h, e) refl, (h, k))
    | inr (n, ss', e, k) ↦ inr (suc n, s ∷ ss', ground (arith, h, e), (h, (ss', refl, k)))
  ]
  | inr h ↦ inr (zero, fresh_slot c ∷ ss, ground arith, (h, refl))
]

acceptable :
    (a : Action) (cb : Option ℕ)
    → Accepts a cb
    → (is_valid_action a ≡ true) × ((needs_handler a && is_none cb) ≡ false)
unfolding is_valid_action needs_handler is_none
acceptable a cb h = ground arith

create_valid :
    (p : Platform) (m : Manager) (c : WatchdogConfig)
    → IsValidConfig c
    → m.initialized ≡ true
    → p.setup_locked ≡ false
    → create p m c ≡ (elim (claim c 0 m.pool) [
      | none ↦ ((resource_exhausted, none), m, [])
      | some (i, pool) ↦ ((ok, some i), record m { pool = pool }, logged "watchdog created" ∷ [])
    ])
unfolding create check_setup_allowed
create_valid p m c (t, a) h k = ground (arith, acceptable c.action c.custom_action a)

-- An allocation with a valid configuration on an initialised module before the end of the setup
-- phase: with every slot of the pool in use it fails with RESOURCE_EXHAUSTED and changes nothing;
-- otherwise it hands out the first free slot, cleared and with the configuration, not running, and
-- changes no other slot.
pub create_allocates :
    (p : Platform) (m : Manager) (c : WatchdogConfig)
    → IsValidConfig c
    → m.initialized ≡ true
    → p.setup_locked ≡ false
    → (((create p m c).0 ≡ (resource_exhausted, none)) × ((create p m c).1 ≡ m) × All IsUsed m.pool)
      ⊎ ((n : ℕ) × ((create p m c).0 ≡ (ok, some n))
          × ((create p m c).1.initialized ≡ true)
          × FirstFree m.pool n (fresh_slot c) (create p m c).1.pool)
create_allocates p m c valid h k = elim (claim-FirstFree c 0 m.pool) [
  | inl (e, used) ↦
      inl
        (rw (create_valid p m c valid h k, e) refl, rw (create_valid p m c valid h k, e) refl, used)
  | inr (n, ss', e, free) ↦
      let w = create_valid p m c valid h k in
      inr (n, rw (w, e) (ap (λ (x : ℕ). (ok, some x)) (omega arith)), rw (w, e) h, rw (w, e) free)
]
