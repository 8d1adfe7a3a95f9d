-- ===== src/Voter/Masking.antt =====
-- A majority of equal responses decides the vote, whatever the others answered.
use platform_rte.Prelude.{
  ℕ, ◌+◌, ◌*◌, ◌≤◌, ◌<◌, ◌≡◌, refl, List, [], ◌∷◌, Option, none, some, Bool, true, false, arith,
  length, All, Bool-cases, inl, inr,
}
use platform_rte.Voter.Types.{IsEquivalence}
use platform_rte.Voter.Grouping.{Response, agreement}
use platform_rte.Voter.Majority.{tally, Every, Verdict, quorate, split, agreement-Verdict}

module _ (same : List ℕ → List ℕ → Bool) (eqv : IsEquivalence same) where
  -- Equal data have equal tallies.
  tally-congr :
      (a b : List ℕ) (rs : List Response) → same a b ≡ true → tally same a rs ≡ tally same b rs
  tally-congr a b [] h = refl
  tally-congr a b (none ∷ rs) h = tally-congr a b rs h
  tally-congr a b (some e ∷ rs) h =
      ground
        (arith, tally-congr a b rs h, eqv.symmetric a e, eqv.symmetric b e, eqv.congruent a b e h)

  -- The classes of different data do not overlap.
  tally-disjoint :
      (a b : List ℕ) (rs : List Response)
      → same a b ≡ false
      → tally same a rs + tally same b rs ≤ length rs
  tally-disjoint a b [] h = omega arith
  tally-disjoint a b (none ∷ rs) h = omega (arith, tally-disjoint a b rs h)
  tally-disjoint a b (some e ∷ rs) h =
      ground
        (arith, tally-disjoint a b rs h, eqv.symmetric a e, eqv.symmetric b e, eqv.congruent b e a)

  -- If every class of a response is small, so is every class.
  tally-lt :
      (a : List ℕ) (q : ℕ) (all rs : List Response)
      → All (Every (λ e. tally same e all < q)) rs
      → 0 < tally same a rs
      → tally same a all < q
  tally-lt a q all [] h k = absurd (omega arith)
  tally-lt a q all (none ∷ rs) h k = tally-lt a q all rs h.1 k
  tally-lt a q all (some e ∷ rs) h k = elim (Bool-cases (same a e)) [
    | inl hit ↦ omega (arith, h.0, tally-congr a e all hit)
    | inr miss ↦ tally-lt a q all rs h.1 (ground arith)
  ]

  decided :
      (a : List ℕ) (q : ℕ) (rs : List Response) (r : Bool × Option (List ℕ))
      → 1 ≤ q
      → q ≤ tally same a rs
      → length rs < 2 * q
      → Verdict same q rs r
      → (d : List ℕ) × (r ≡ (true, some d)) × (same a d ≡ true)
  decided a q rs _ one h few (quorate d m enough most) = elim (Bool-cases (same a d)) [
    | inl e ↦ (d, refl, e)
    | inr e ↦ absurd (omega (arith, tally-disjoint a d rs e))
  ]
  decided a q rs _ one h few (split small) =
      absurd (omega (arith, tally-lt a q rs rs small (omega arith)))

-- If a quorum of the channels, and more than half of them, answered with the same data as `a`, the
-- vote agrees and its data is the same as `a`, whatever the other channels did. So two correct
-- channels of three mask the third, and both of two have to be correct.
pub majority_masks :
    (same : List ℕ → List ℕ → Bool) (a : List ℕ) (quorum : ℕ) (rs : List Response)
    → IsEquivalence same
    → 1 ≤ quorum
    → quorum ≤ tally same a rs
    → length rs < 2 * quorum
    → (d : List ℕ) × (agreement same quorum rs ≡ (true, some d)) × (same a d ≡ true)
majority_masks same a quorum rs eqv one h few =
    decided same eqv a quorum rs _ one h few (agreement-Verdict same quorum rs eqv one)
