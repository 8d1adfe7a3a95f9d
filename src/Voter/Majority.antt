-- ===== src/Voter/Majority.antt =====
-- What `agreement` returns: the data of a largest class of responses, exactly if it has a quorum.
use platform_rte.Prelude.{
  ℕ, zero, suc, ◌+◌, ◌≤◌, ◌<◌, ◌≡◌, refl, sym, ap, subst, ◌∙◌, ◌⊎◌, inl, inr, List, [], ◌∷◌, ◌++◌,
  Option, none, some, Bool, true, false, arith, ◌==◌, ltb, leb, leb→le, length, get_or, All,
  All-map, All-append_one, if◌then◌else◌, Bool-cases, length-append, get_or-append_at,
}
use mathlib.Core.List.{Memᴰ, append-nil, append_assoc, map, map-append}
use platform_rte.Voter.Types.{IsEquivalence}
use platform_rte.Voter.Grouping.{
  Response, Entry, Groups, find_group, join, place, group_from, group, best_from, pick, agreement,
}
use platform_rte.Voter.Classes.{count_group, Fits, IsClassified, group-IsClassified}

abbrev answer : Entry → Response
answer none = none
answer (some (d, g)) = some d

-- How many channels responded with the same data as `d`.
abbrev pub tally : (List ℕ → List ℕ → Bool) → List ℕ → List Response → ℕ
tally same d [] = 0
tally same d (none ∷ rs) = tally same d rs
tally same d (some e ∷ rs) = (if same d e then 1 else 0) + tally same d rs

-- `P` of the data of every channel that responded.
abbrev pub Every : (List ℕ → Type 0) → Response → Type 0
Every P none = Unit
Every P (some d) = P d

answers-join :
    (same : List ℕ → List ℕ → Bool) (gs : Groups) (x : List ℕ) (o : Option ℕ)
    → map answer (join same gs x o).placed ≡ map answer gs.placed ++ some x ∷ []
unfolding join
answers-join same gs x none = map-append _ _ _
answers-join same gs x (some g) = map-append _ _ _

answers-place :
    (same : List ℕ → List ℕ → Bool) (gs : Groups) (r : Response)
    → map answer (place same gs r).placed ≡ map answer gs.placed ++ r ∷ []
unfolding place
answers-place same gs none = map-append _ _ _
answers-place same gs (some x) = answers-join same gs x (find_group same x gs.placed)

answers-group_from :
    (same : List ℕ → List ℕ → Bool) (gs : Groups) (rs : List Response)
    → map answer (group_from same gs rs).placed ≡ map answer gs.placed ++ rs
unfolding group_from
answers-group_from same gs [] = sym (append-nil _)
answers-group_from same gs (r ∷ rs) =
    rw (answers-group_from same (place same gs r) rs, answers-place same gs r)
      (append_assoc _ (r ∷ []) rs)

-- The entries hold the responses, in order.
answers-group :
    (same : List ℕ → List ℕ → Bool) (rs : List Response) → map answer (group same rs).placed ≡ rs
unfolding group
answers-group same rs = answers-group_from same (record { placed = []; counts = [] }) rs

tally-count_group :
    (same : List ℕ → List ℕ → Bool) (d : List ℕ) (g : ℕ) (es : List Entry)
    → All (Fits same (some (d, g))) es
    → tally same d (map answer es) ≡ count_group g es
tally-count_group same d g [] h = refl
tally-count_group same d g (none ∷ es) h = tally-count_group same d g es h.1
tally-count_group same d g (some (e, k) ∷ es) h =
    ground (arith, h.0, tally-count_group same d g es h.1)

-- The scan: no count is larger than the best, which is the count of the best group unless it is 0.
best_from_lem :
    (all seen cs : List ℕ) (i best_group best_count : ℕ)
    → seen ++ cs ≡ all
    → i ≡ length seen
    → All (λ c. c ≤ best_count) seen
    → (best_count ≡ 0) ⊎ (get_or all best_group 0 ≡ best_count)
    → let (b, n) = best_from i best_group best_count cs in
      All (λ c. c ≤ n) all × ((n ≡ 0) ⊎ (get_or all b 0 ≡ n))
unfolding best_from
best_from_lem all seen [] i b n split e h k =
    (subst (All (λ c. c ≤ n)) (sym (append-nil seen) ∙ split) h, k)
best_from_lem all seen (c ∷ cs) i b n split e h k = elim (Bool-cases (ltb n c)) [
  | inl more ↦
      rw (more, best_from)
        (best_from_lem all (seen ++ c ∷ []) cs (suc i) i c (append_assoc seen (c ∷ []) cs ∙ split)
          (omega (arith, length-append seen (c ∷ [])))
          (All-append_one _ seen c (All-map _ _ seen (λ x le. ground arith) h) (omega arith))
          (inr (rw e here)))
  | inr less ↦
      rw (less, best_from)
        (best_from_lem all (seen ++ c ∷ []) cs (suc i) b n (append_assoc seen (c ∷ []) cs ∙ split)
          (omega (arith, length-append seen (c ∷ []))) (All-append_one _ seen c h (ground arith)) k)
]
  where
    here : get_or all (length seen) 0 ≡ c
    here = rw split at (get_or-append_at seen c cs 0)

-- A group with a member has a first member, of which all that holds of every entry holds.
pick_lem :
    (Q : Entry → Type 0) (g : ℕ) (es : List Entry)
    → All Q es
    → 0 < count_group g es
    → (d : List ℕ) × (pick g es ≡ some d) × Q (some (d, g)) × Memᴰ (some d) (map answer es)
unfolding pick
pick_lem Q g [] q h = absurd (omega arith)
pick_lem Q g (none ∷ es) q h = let (d, e, p, m) = pick_lem Q g es q.1 h in (d, e, p, Memᴰ.tail m)
pick_lem Q g (some (d, k) ∷ es) q h = elim (Bool-cases (k == g)) [
  | inl e ↦
      let k≡g : k ≡ g = ground arith in
      (d, ground arith, subst (λ j. Q (some (d, j))) k≡g q.0, Memᴰ.head refl)
  | inr e ↦
      let (d', e', p, m) = pick_lem Q g es q.1 (ground arith) in (d', ground arith, p, Memᴰ.tail m)
]

get_or-le : (n : ℕ) (cs : List ℕ) (i : ℕ) → All (λ c. c ≤ n) cs → get_or cs i 0 ≤ n
get_or-le n [] i h = omega arith
get_or-le n (c ∷ cs) zero h = h.0
get_or-le n (c ∷ cs) (suc i) h = get_or-le n cs i h.1

-- Every response has a class no larger than the best count.
classes-le :
    (same : List ℕ → List ℕ → Bool) (all : List Response) (n : ℕ) (gs : Groups) (es : List Entry)
    → map answer gs.placed ≡ all
    → ((g : ℕ) → get_or gs.counts g 0 ≡ count_group g gs.placed)
    → All (λ c. c ≤ n) gs.counts
    → All (λ e. All (Fits same e) gs.placed) es
    → All (Every (λ d. tally same d all ≤ n)) (map answer es)
classes-le same all n gs [] a s b h = tt
classes-le same all n gs (none ∷ es) a s b h = (tt, classes-le same all n gs es a s b h.1)
classes-le same all n gs (some (d, g) ∷ es) a s b h = (
  rw (← a, tally-count_group same d g gs.placed h.0, ← s g) (get_or-le n gs.counts g b),
  classes-le same all n gs es a s b h.1,
)

-- The verdict on some responses.
pub data Verdict (same : List ℕ → List ℕ → Bool) (quorum : ℕ) (rs : List Response)
    : Bool × Option (List ℕ) → Type 0 where
  quorate :
      (d : List ℕ)
      → Memᴰ (some d) rs
      → quorum ≤ tally same d rs
      → All (Every (λ e. tally same e rs ≤ tally same d rs)) rs
      → Verdict same quorum rs (true, some d)
  split : All (Every (λ e. tally same e rs < quorum)) rs → Verdict same quorum rs (false, none)

module _ (same : List ℕ → List ℕ → Bool) (quorum : ℕ) (rs : List Response) where
  -- The verdict from the classified groups and the result of the scan.
  Verdict-agreement :
      (gs : Groups) (b n : ℕ)
      → map answer gs.placed ≡ rs
      → IsClassified same gs
      → All (λ c. c ≤ n) gs.counts
      → (n ≡ 0) ⊎ (get_or gs.counts b 0 ≡ n)
      → 1 ≤ quorum
      → Verdict same quorum rs (if leb quorum n then (true, pick b gs.placed) else (false, none))
  Verdict-agreement gs b n a c most best q = elim (Bool-cases (leb quorum n)) [
    | inl enough ↦
        let reached : quorum ≤ n = leb→le quorum n enough in
        let size : count_group b gs.placed ≡ n = ground (arith, c.sizes b) in
        let (d, picked, fits, member) =
          pick_lem (λ e. All (Fits same e) gs.placed) b gs.placed c.fits (omega arith) in
        let count : tally same d rs ≡ n =
          ap (tally same d) (sym a) ∙ tally-count_group same d b gs.placed fits ∙ size in
        rw (enough, picked)
          (quorate d (subst (Memᴰ (some d)) a member) (omega arith)
            (All-map _ _ rs (λ r h. below d n count r h) classes))
    | inr few ↦ rw few (split (All-map _ _ rs (λ r h. short (ground arith) r h) classes))
  ]
    where
      classes : All (Every (λ e. tally same e rs ≤ n)) rs
      classes =
          subst (All (Every (λ e. tally same e rs ≤ n))) a
            (classes-le same rs n gs gs.placed a c.sizes most c.fits)

      below :
          (d : List ℕ) (n : ℕ)
          → tally same d rs ≡ n
          → (r : Response) → Every (λ e. tally same e rs ≤ n) r
          → Every (λ e. tally same e rs ≤ tally same d rs) r
      below d n e none h = tt
      below d n e (some x) h = omega arith

      short :
          n < quorum
          → (r : Response) → Every (λ e. tally same e rs ≤ n) r
          → Every (λ e. tally same e rs < quorum) r
      short lt none h = tt
      short lt (some x) h = omega arith

-- For a comparison that is an equivalence and a quorum of at least 1: the responses agree exactly
-- if as many of them as the quorum are the same, and what is copied out is then the data of a
-- channel whose class is a largest one and has the quorum.
pub agreement-Verdict :
    (same : List ℕ → List ℕ → Bool) (quorum : ℕ) (rs : List Response)
    → IsEquivalence same
    → 1 ≤ quorum
    → Verdict same quorum rs (agreement same quorum rs)
unfolding agreement
agreement-Verdict same quorum rs eqv q =
    let c = group-IsClassified same eqv rs in
    let (most, best) =
      best_from_lem (group same rs).counts [] (group same rs).counts 0 0 0 refl refl tt
        (inl refl) in
    Verdict-agreement same quorum rs (group same rs) _ _ (answers-group same rs) c most best q
