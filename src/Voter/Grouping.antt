-- ===== src/Voter/Grouping.antt =====
-- `voter_group_matching_responses`, and the choice of the largest group, over any comparison.
use platform_rte.Prelude.{
  ℕ, suc, ◌+◌, List, [], ◌∷◌, ◌++◌, Option, none, some, Bool, true, false, ltb, leb, ◌==◌, length,
  get_or, set, if◌then◌else◌,
}

-- What a channel answered; `none` where `responded` is false.
abbrev pub Response : Type 0
Response = Option (List ℕ)

-- A channel that is done with, with its data and its `group_id` if it responded.
abbrev pub Entry : Type 0
Entry = Option (List ℕ × ℕ)

-- The arrays of the loop: the channels before index `i`, and `group_count[0 .. num_groups)`.
pub record Groups : Type 0 where
  pub placed : List Entry
  pub counts : List ℕ

module _ (same : List ℕ → List ℕ → Bool) where
  -- The inner loop: the group of the first earlier channel with the same data.
  unfoldable pub find_group : List ℕ → List Entry → Option ℕ
  find_group x [] = none
  find_group x (none ∷ es) = find_group x es
  find_group x (some (d, g) ∷ es) = if same x d then some g else find_group x es

  -- `group_id[i] = g; group_count[g]++` of a channel that matches, and a new group otherwise.
  unfoldable pub join : Groups → List ℕ → Option ℕ → Groups
  join gs x (some g) = record {
    placed = gs.placed ++ some (x, g) ∷ [];
    counts = set gs.counts g (get_or gs.counts g 0 + 1);
  }
  join gs x none = record {
    placed = gs.placed ++ some (x, length gs.counts) ∷ [];
    counts = gs.counts ++ 1 ∷ [];
  }

  unfoldable pub place : Groups → Response → Groups
  place gs none = record gs { placed = gs.placed ++ none ∷ [] }
  place gs (some x) = join gs x (find_group x gs.placed)

  unfoldable pub group_from : Groups → List Response → Groups
  group_from gs [] = gs
  group_from gs (r ∷ rs) = group_from (place gs r) rs

  unfoldable pub group : List Response → Groups
  group rs = group_from (record { placed = []; counts = [] }) rs

-- The scan for the largest count at index `i`: the best group and its count.
unfoldable pub best_from : ℕ → ℕ → ℕ → List ℕ → ℕ × ℕ
best_from i best_group best_count [] = (best_group, best_count)
best_from i best_group best_count (c ∷ cs) =
    best_from (suc i) (if ltb best_count c then i else best_group)
      (if ltb best_count c then c else best_count) cs

-- The data of the first channel in a group, which is what is copied out.
unfoldable pub pick : ℕ → List Entry → Option (List ℕ)
pick g [] = none
pick g (none ∷ es) = pick g es
pick g (some (d, h) ∷ es) = if h == g then some d else pick g es

-- The agreement of some responses: whether a group reaches the quorum, and the data copied out.
unfoldable pub agreement : (List ℕ → List ℕ → Bool) → ℕ → List Response → Bool × Option (List ℕ)
agreement same quorum rs =
    let gs = group same rs in
    let (best_group, best_count) = best_from 0 0 0 gs.counts in
    if leb quorum best_count then (true, pick best_group gs.placed) else (false, none)
