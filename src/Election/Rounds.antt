-- ===== src/Election/Rounds.antt =====
-- What `rte_election_execute` decides, and that replicas agree about it.
use mathlib.Core.List.{Mem, mem-cons, not-mem-nil, mem-cons_self, mem-cons_of_mem}
use mathlib.Core.Logic.Or
use native.Mathlib.Decide.{dec_lt}
use native.Mathlib.Nat.{ℕ_set}
use platform_rte.Prelude.{
  ℕ, zero, suc, ◌+◌, ◌≤◌, ◌<◌, ◌≡◌, refl, sym, ap, subst, ◌∙◌, ◌↔◌, ◌≢◌, ◌⊎◌, inl, inr, List, [],
  ◌∷◌, none, some, Bool, true, false, arith, length, get_or, All, if◌then◌else◌, ◌==◌, eq→==,
  Option-cases,
}
use platform_rte.Platform.Status.{ok, elements}
use platform_rte.Dual.Types.{unknown, online, standby}
use platform_rte.Election.{
  Candidate, Election, max_replicas, execute, run_round, elect, find_winner_index, find_own_index,
}
use platform_rte.Election.Winner.{
  NotLater, find_winner_index_lem, Distinct, find_own_index-Distinct, find_own_index-found,
}

mem-get_or : (xs : List Candidate) (i : ℕ) (d : Candidate) → i < length xs → Mem (get_or xs i d) xs
mem-get_or [] i d h = absurd (omega arith)
mem-get_or (x ∷ xs) zero d h = mem-cons_self
mem-get_or (x ∷ xs) (suc i) d h = mem-cons_of_mem x (mem-get_or xs i d (omega arith))

NotLater-antisym : (a b : Candidate) → NotLater a b → NotLater b a → a.id ≡ b.id
NotLater-antisym a b h k = omega arith

-- A fact of every element, used at a member for a proposition.
All-mem {ℓ} :
    (P : Candidate → Type 0) (G : Type ℓ)
    → IsProp G
    → (xs : List Candidate) (a : Candidate) → All P xs
    → Mem a xs
    → (P a → G)
    → G
All-mem P G prop [] a h m k = absurd (not-mem-nil m)
All-mem P G prop (x ∷ xs) a h m k =
    Or.elim prop (mem-cons.0 m) (λ e. k (subst P (sym e) h.0))
      (λ m'. All-mem P G prop xs a h.1 m' k)

-- What a replica with a place in the snapshot makes of it: `w` is the winner.
abbrev pub Elected : Election → List Candidate → Candidate → Election
Elected e xs w = record e {
  winner_id = w.id;
  have_winner = true;
  own_last_state = if w.id == e.own_id then online else standby w.degraded;
}

-- A candidate of the snapshot that no other precedes.
abbrev pub IsFirst : Candidate → List Candidate → Type 0
IsFirst w xs = Mem w xs × All (NotLater w) xs

winner-IsFirst :
    (c : Candidate) (rest : List Candidate)
    → IsFirst (get_or (c ∷ rest) (find_winner_index (c ∷ rest)) c) (c ∷ rest)
winner-IsFirst c rest =
    let (lt, first) = find_winner_index_lem c rest c in (mem-get_or (c ∷ rest) _ c lt, first)

-- The index test of the code is the test on ids.
same_test :
    (xs : List Candidate) (own w k : ℕ) (c : Candidate)
    → Distinct xs
    → w < length xs
    → find_own_index own 0 xs ≡ some k
    → (w == k) ≡ ((get_or xs w c).id == own)
same_test xs own w k c u lt found =
    let (j, at, inside, mine) = find_own_index-found xs own 0 c found in
    elim (dec_lt j w) [
      | yes p ↦ different j at mine (omega arith)
      | no p ↦ elim (dec_lt w j) [
        | yes q ↦ different j at mine (omega arith)
        | no q ↦
            let e : w ≡ j = omega arith in ground (arith, eq→== w k (omega arith), rw (← e) at mine)
      ]
    ]
  where
    different :
        (j : ℕ)
        → k ≡ 0 + j
        → (get_or xs j c).id ≡ own
        → j ≢ w
        → (w == k) ≡ ((get_or xs w c).id == own)
    different j at mine ne = ground (arith, find_own_index-Distinct xs own 0 w c u lt)

elect_lem :
    (e : Election) (c : Candidate) (rest : List Candidate) (k : ℕ)
    → Distinct (c ∷ rest)
    → find_own_index e.own_id 0 (c ∷ rest) ≡ some k
    → elect e c (c ∷ rest) k
      ≡ Elected e (c ∷ rest) (get_or (c ∷ rest) (find_winner_index (c ∷ rest)) c)
unfolding elect
elect_lem e c rest k u found =
    ap
      (λ b. record e {
        winner_id = (get_or (c ∷ rest) (find_winner_index (c ∷ rest)) c).id;
        have_winner = true;
        own_last_state =
            if b
            then online
            else standby (get_or (c ∷ rest) (find_winner_index (c ∷ rest)) c).degraded;
      })
      (same_test (c ∷ rest) e.own_id (find_winner_index (c ∷ rest)) k c u
        (find_winner_index_lem c rest c).0 found)

-- What one round makes of the state, in both cases.
abbrev pub RoundResult : Election → List Candidate → Election → Type 0
RoundResult e xs e' =
    (All (λ c. c.id ≢ e.own_id) xs × (e' ≡ record e { own_last_state = unknown }))
    ⊎ ((w : Candidate) × IsFirst w xs
        × (e' ≡ Elected e xs w)
        × ((own : Candidate) × Mem own xs × (own.id ≡ e.own_id)))

find_own_index-none :
    (xs : List Candidate) (own i : ℕ) → find_own_index own i xs ≡ none → All (λ c. c.id ≢ own) xs
unfolding find_own_index
find_own_index-none [] own i h = tt
find_own_index-none (x ∷ xs) own i h = ground (arith, find_own_index-none xs own (suc i))

run_round_lem :
    (e : Election) (xs : List Candidate) → Distinct xs → RoundResult e xs (run_round e xs)
unfolding run_round
run_round_lem e [] u = inl (tt, refl)
run_round_lem e (c ∷ rest) u = elim (Option-cases (find_own_index e.own_id 0 (c ∷ rest))) [
  | inl absent ↦
      rw (absent, run_round) (inl (find_own_index-none (c ∷ rest) e.own_id 0 absent, refl))
  | inr (k, found) ↦
      let (j, _, inside, mine) = find_own_index-found (c ∷ rest) e.own_id 0 c found in
      rw (found, run_round)
        (inr (
          _,
          winner-IsFirst c rest,
          elect_lem e c rest k u found,
          (_, mem-get_or (c ∷ rest) j c inside, mine),
        ))
]

-- A round over at most five candidates with distinct ids succeeds. If the own id is not among them,
-- the state is UNKNOWN and the last winner stays. If it is, the winner is a candidate that none
-- precedes (older first, then the smaller id); the own state is ONLINE exactly if the winner has
-- the own id, and otherwise the standby label of the winner's degradation.
pub execute_lem :
    (e : Election) (xs : List Candidate)
    → length xs ≤ max_replicas
    → Distinct xs
    → (e' : Election) × (execute (some e) (elements xs) ≡ (ok, some e')) × RoundResult e xs e'
unfolding execute
execute_lem e xs small u = (run_round e xs, ground arith, run_round_lem e xs u)

-- The winner of a replica that took part, and its place in the snapshot.
abbrev TookPart : Election → List Candidate → Election → Type 0
TookPart e xs e' = (w : Candidate) × IsFirst w xs × (e' ≡ Elected e xs w)

took_part :
    (e e' : Election) (xs : List Candidate)
    → length xs ≤ max_replicas
    → Distinct xs
    → execute (some e) (elements xs) ≡ (ok, some e')
    → e'.own_last_state ≢ unknown
    → TookPart e xs e'
took_part e e' xs small u run took =
    let (r, ran, result) = execute_lem e xs small u in go r (ground arith) result
  where
    go : (r : Election) → r ≡ e' → RoundResult e xs r → TookPart e xs e'
    go r same (inl (absent, out)) = absurd (took (ground arith))
    go r same (inr (w, first, out, own)) = (w, first, sym same ∙ out)

first-id :
    (xs ys : List Candidate) (a b : Candidate)
    → IsFirst a xs
    → IsFirst b ys
    → Mem b xs
    → Mem a ys
    → a.id ≡ b.id
first-id xs ys a b p q m n =
    All-mem (NotLater a) (a.id ≡ b.id) (ℕ_set _ _) xs b p.1 m
      λ h. All-mem (NotLater b) (a.id ≡ b.id) (ℕ_set _ _) ys a q.1 n λ k. NotLater-antisym a b h k

standby-ne-online : (b : Bool) → standby b ≢ online
standby-ne-online true e = cc
standby-ne-online false e = cc

online_iff :
    (e : Election) (xs : List Candidate) (w : Candidate)
    → ((Elected e xs w).own_last_state ≡ online) ↔ (w.id ≡ e.own_id)
online_iff e xs w =
    (λ h. ground (arith, standby-ne-online w.degraded), λ h. ground (arith, eq→== w.id e.own_id h))

-- Two replicas that ran a round on the same candidates, in any order, and took part, name the same
-- winner. Each is ONLINE exactly if the winner has its id, so with different ids they are not both
-- ONLINE.
pub replicas_agree :
    (e f e' f' : Election) (xs ys : List Candidate)
    → length xs ≤ max_replicas
    → length ys ≤ max_replicas
    → Distinct xs
    → Distinct ys
    → ((c : Candidate) → Mem c xs ↔ Mem c ys)
    → execute (some e) (elements xs) ≡ (ok, some e')
    → execute (some f) (elements ys) ≡ (ok, some f')
    → e'.own_last_state ≢ unknown
    → f'.own_last_state ≢ unknown
    → (e'.winner_id ≡ f'.winner_id)
      × ((e'.own_last_state ≡ online) ↔ (e'.winner_id ≡ e.own_id))
      × ((f'.own_last_state ≡ online) ↔ (f'.winner_id ≡ f.own_id))
      × (e.own_id ≢ f.own_id → e'.own_last_state ≡ online → f'.own_last_state ≢ online)
replicas_agree e f e' f' xs ys small_x small_y ux uy same run_e run_f took_e took_f =
    let (w, first_w, out_e) = took_part e e' xs small_x ux run_e took_e in
    let (v, first_v, out_f) = took_part f f' ys small_y uy run_f took_f in
    let ids = first-id xs ys w v first_w first_v ((same v).1 first_v.0) ((same w).0 first_w.0) in
    rw (out_e, out_f)
      (
        ids,
        online_iff e xs w,
        online_iff f ys v,
        λ ne on_e on_f. ne (sym ((online_iff e xs w).0 on_e) ∙ ids ∙ (online_iff f ys v).0 on_f),
      )
