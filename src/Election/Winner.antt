-- ===== src/Election/Winner.antt =====
-- The two loops of the election: what the indices that they return stand for.
use platform_rte.Prelude.{
  ℕ, zero, suc, ◌+◌, ◌<◌, ◌≡◌, refl, sym, ap, subst, ◌∙◌, ◌≢◌, ◌⊎◌, inl, inr, List, [], ◌∷◌, some,
  true, false, arith, length, get_or, All, Bool-cases, get_or-append_at, get_or_default,
  length-append, All-append_one, All-get_or, ◌++◌, if◌then◌else◌, All-map, ◌==◌, ==→eq,
}
use mathlib.Core.List.{append-nil, append_assoc}
use platform_rte.Election.{Candidate, beats, winner_loop, find_winner_index, find_own_index}

-- `w` is older than `c`, or as old with an id that is not larger: the order of the election.
abbrev pub NotLater : Candidate → Candidate → Type 0
NotLater w c =
    (w.startup_timestamp_ms < c.startup_timestamp_ms)
    ⊎ ((w.startup_timestamp_ms ≡ c.startup_timestamp_ms) × (w.id < c.id + 1))

beats-NotLater : (c w : Candidate) → beats c w ≡ true → NotLater c w
unfolding beats
beats-NotLater c w h = ground arith

not_beats-NotLater : (c w : Candidate) → beats c w ≡ false → NotLater w c
unfolding beats
not_beats-NotLater c w h = ground arith

pub NotLater-refl : (c : Candidate) → NotLater c c
NotLater-refl c = inr (refl, omega arith)

pub NotLater-trans : (a b c : Candidate) → NotLater a b → NotLater b c → NotLater a c
NotLater-trans a b c h k = ground arith

abbrev Leads : List Candidate → List Candidate → Candidate → ℕ → Type 0
Leads candidates seen d w = (w < length candidates) × All (NotLater (get_or candidates w d)) seen

-- One step of the loop: the leader of those seen against the next candidate.
step-Leads :
    (all seen rest : List Candidate) (c d : Candidate) (w i : ℕ)
    → seen ++ (c ∷ rest) ≡ all
    → w < length seen
    → i ≡ length seen
    → All (NotLater (get_or all w d)) seen
    → let r = (if beats c (get_or all w c) then i else w) in
      (r < suc (length seen)) × All (NotLater (get_or all r d)) (seen ++ c ∷ [])
step-Leads all seen rest c d w i split lt e h = elim (Bool-cases (beats c leader)) [
  | inl wins ↦
      rw (wins, e, here)
        (
          omega arith,
          All-append_one _ seen c
              (All-map _ _ seen (λ x k. NotLater-trans c leader x (beats-NotLater c leader wins) k)
                (rw (get_or_default all w c d inside) h))
              (NotLater-refl c),
        )
  | inr loses ↦ rw loses (
    omega arith,
    All-append_one _ seen c h
        (rw (get_or_default all w d c inside) (not_beats-NotLater c leader loses)),
  )
]
  where
    leader : Candidate
    leader = get_or all w c

    here : get_or all (length seen) d ≡ c
    here = rw split at (get_or-append_at seen c rest d)

    inside : w < length all
    inside = omega (arith, ap length split, length-append seen (c ∷ rest))

winner_loop-Leads :
    (all seen rest : List Candidate) (d : Candidate) (w i : ℕ)
    → seen ++ rest ≡ all
    → w < length seen
    → i ≡ length seen
    → All (NotLater (get_or all w d)) seen
    → Leads all all d (winner_loop all w i rest)
unfolding winner_loop
winner_loop-Leads all seen [] d w i split lt e h =
    let whole : seen ≡ all = sym (append-nil seen) ∙ split in
    (omega (arith, ap length whole), subst (All (NotLater (get_or all w d))) whole h)
winner_loop-Leads all seen (c ∷ rest) d w i split lt e h =
    let (lt', h') = step-Leads all seen rest c d w i split lt e h in
    winner_loop-Leads all (seen ++ c ∷ []) rest d (if beats c (get_or all w c) then i else w)
      (suc i) (append_assoc seen (c ∷ []) rest ∙ split)
      (omega (arith, length-append seen (c ∷ []), lt')) (omega (arith, length-append seen (c ∷ [])))
      h'

-- `find_winner_index` returns the index of a candidate that none of them precedes.
pub find_winner_index_lem :
    (c : Candidate) (rest : List Candidate) (d : Candidate)
    → let w = find_winner_index (c ∷ rest) in
      (w < length (c ∷ rest)) × All (NotLater (get_or (c ∷ rest) w d)) (c ∷ rest)
unfolding find_winner_index
find_winner_index_lem c rest d =
    winner_loop-Leads (c ∷ rest) (c ∷ []) rest d 0 1 refl (omega arith) refl (NotLater-refl c, tt)

-- No two candidates have the same id.
abbrev pub Distinct : List Candidate → Type 0
Distinct [] = Unit
Distinct (c ∷ cs) = All (λ d. d.id ≢ c.id) cs × Distinct cs

-- With distinct ids `find_own_index` returns the index of any candidate with that id.
pub find_own_index-Distinct :
    (xs : List Candidate) (own i k : ℕ) (d : Candidate)
    → Distinct xs
    → k < length xs
    → (get_or xs k d).id ≡ own
    → find_own_index own i xs ≡ some (i + k)
unfolding find_own_index
find_own_index-Distinct [] own i k d u lt e = absurd (omega arith)
find_own_index-Distinct (x ∷ xs) own i zero d u lt e = ground arith
find_own_index-Distinct (x ∷ xs) own i (suc k) d u lt e =
    let other = All-get_or (λ d. d.id ≢ x.id) xs k d u.0 (omega arith) in
    ground (arith, find_own_index-Distinct xs own (suc i) k d u.1)

-- What it finds is a candidate with the own id.
pub find_own_index-found :
    (xs : List Candidate) (own i : ℕ) (d : Candidate) {k : ℕ}
    → find_own_index own i xs ≡ some k
    → (j : ℕ) × (k ≡ i + j) × (j < length xs) × ((get_or xs j d).id ≡ own)
unfolding find_own_index
find_own_index-found [] own i d h = cc
find_own_index-found (x ∷ xs) own i d h = elim (Bool-cases (x.id == own)) [
  | inl e ↦ (0, ground arith, omega arith, ==→eq x.id own e)
  | inr e ↦
      let (j, k, lt, same) = find_own_index-found xs own (suc i) d (rw e at h) in
      (suc j, omega arith, omega arith, same)
]
