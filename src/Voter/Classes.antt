-- ===== src/Voter/Classes.antt =====
-- The groups are the classes of the comparison, and the counts are their sizes.
use platform_rte.Prelude.{
  ℕ, zero, suc, ◌+◌, ◌≤◌, ◌<◌, ◌≡◌, refl, sym, subst, ◌∙◌, inl, inr, List, [], ◌∷◌, ◌++◌, Option,
  none, some, Bool, true, false, arith, ◌==◌, ltb, length, get_or, All, All-append_one, All-map,
  if◌then◌else◌, Bool-cases, All-zip, ==_comm, ==_self, length-append, length-set, get_or-set_self,
  get_or-set_ne,
}
use native.Mathlib.Numerals.{add-one}
use platform_rte.Voter.Types.{IsEquivalence}
use platform_rte.Voter.Grouping.{
  Response, Entry, Groups, find_group, join, place, group_from, group,
}

-- How many entries are in group `g`.
abbrev pub count_group : ℕ → List Entry → ℕ
count_group g [] = 0
count_group g (none ∷ es) = count_group g es
count_group g (some (d, h) ∷ es) = (if h == g then 1 else 0) + count_group g es

abbrev pub Below : ℕ → Entry → Type 0
Below n none = Unit
Below n (some (d, g)) = g < n

count_group-append :
    (g : ℕ) (es fs : List Entry) → count_group g (es ++ fs) ≡ count_group g es + count_group g fs
count_group-append g [] fs = omega arith
count_group-append g (none ∷ es) fs = count_group-append g es fs
count_group-append g (some (d, h) ∷ es) fs = omega (arith, count_group-append g es fs)

count_group-above : (g n : ℕ) (es : List Entry) → All (Below n) es → n ≤ g → count_group g es ≡ 0
count_group-above g n [] b h = refl
count_group-above g n (none ∷ es) b h = count_group-above g n es b.1 h
count_group-above g n (some (d, k) ∷ es) b h = ground (arith, count_group-above g n es b.1 h)

get_or-append_one :
    (xs : List ℕ) (v i d : ℕ)
    → get_or (xs ++ v ∷ []) i d
      ≡ (if ltb i (length xs) then get_or xs i d else if i == length xs then v else d)
get_or-append_one [] v zero d = refl
get_or-append_one [] v (suc i) d = ground arith
get_or-append_one (x ∷ xs) v zero d = ground arith
get_or-append_one (x ∷ xs) v (suc i) d = ground (arith, get_or-append_one xs v i d)

module _ (same : List ℕ → List ℕ → Bool) where
  -- Two entries have the same group exactly if they have the same data.
  abbrev pub Fits : Entry → Entry → Type 0
  Fits none f = Unit
  Fits (some (d, g)) none = Unit
  Fits (some (d, g)) (some (e, h)) = same d e ≡ (g == h)

  -- The state of the loop.
  pub record IsClassified (gs : Groups) : Type 0 where
    pub fits : All (λ e. All (Fits e) gs.placed) gs.placed
    pub below : All (Below (length gs.counts)) gs.placed
    pub sizes : (g : ℕ) → get_or gs.counts g 0 ≡ count_group g gs.placed

  -- A match is an entry with the same data, of which all that holds of every entry holds.
  find_group-found :
      (Q : Entry → Type 0) (x : List ℕ) (es : List Entry) {g : ℕ}
      → All Q es
      → find_group same x es ≡ some g
      → (d : List ℕ) × (same x d ≡ true) × Q (some (d, g))
  unfolding find_group
  find_group-found Q x [] q h = cc
  find_group-found Q x (none ∷ es) q h = find_group-found Q x es q.1 h
  find_group-found Q x (some (d, k) ∷ es) {g} q h = elim (Bool-cases (same x d)) [
    | inl e ↦ let k≡g : k ≡ g = ground arith in (d, e, subst (λ j. Q (some (d, j))) k≡g q.0)
    | inr e ↦ find_group-found Q x es q.1 (rw e at h)
  ]

  abbrev Differs : List ℕ → Entry → Type 0
  Differs x none = Unit
  Differs x (some (d, g)) = same x d ≡ false

  find_group-none :
      (x : List ℕ) (es : List Entry) → find_group same x es ≡ none → All (Differs x) es
  unfolding find_group
  find_group-none x [] h = tt
  find_group-none x (none ∷ es) h = (tt, find_group-none x es h)
  find_group-none x (some (d, g) ∷ es) h = ground (arith, find_group-none x es)

  module _ (eqv : IsEquivalence same) where
    flip-Fits : (x : List ℕ) (g : ℕ) (e : Entry) → Fits e (some (x, g)) → Fits (some (x, g)) e
    flip-Fits x g none h = tt
    flip-Fits x g (some (d, k)) h = eqv.symmetric x d ∙ h ∙ ==_comm k g

    -- One more entry, that fits all the others.
    extend-Fits :
        (es : List Entry) (x : List ℕ) (g : ℕ)
        → All (λ e. All (Fits e) es) es
        → All (λ e. Fits e (some (x, g))) es
        → let es' = es ++ some (x, g) ∷ [] in All (λ e. All (Fits e) es') es'
    extend-Fits es x g old new =
        All-append_one _ es (some (x, g))
          (All-map _ _ es (λ e h. All-append_one (Fits e) es (some (x, g)) h.0 h.1)
            (All-zip _ _ es old new))
          (All-append_one _ es (some (x, g)) (All-map _ _ es (flip-Fits x g) new)
            (eqv.reflexive x ∙ sym (==_self g)))

    extend_silent :
        (es : List Entry)
        → All (λ e. All (Fits e) es) es
        → let es' = es ++ none ∷ [] in All (λ e. All (Fits e) es') es'
    extend_silent es old =
        All-append_one _ es none
          (All-map _ _ es (λ e h. All-append_one (Fits e) es none h (no_fit e)) old)
          (All-append_one _ es none (All-map _ _ es (λ e h. tt) old) tt)
      where
        no_fit : (e : Entry) → Fits e none
        no_fit none = tt
        no_fit (some (d, g)) = tt

    -- A match: every entry fits the new one in the group that was found.
    matched-Fits :
        (es : List Entry) (x : List ℕ) (g : ℕ)
        → All (λ e. All (Fits e) es) es
        → find_group same x es ≡ some g
        → All (λ e. Fits e (some (x, g))) es
    matched-Fits es x g old found = All-map _ _ es fit old
      where
        fit : (e : Entry) → All (Fits e) es → Fits e (some (x, g))
        fit none h = tt
        fit (some (d, k)) h =
            let (y, xy, dy) = find_group-found (Fits (some (d, k))) x es h found in
            eqv.congruent x y d xy ∙ dy

    -- No match: the new group is not that of any entry.
    fresh-Fits :
        (es : List Entry) (x : List ℕ) (n : ℕ)
        → All (Below n) es
        → find_group same x es ≡ none
        → All (λ e. Fits e (some (x, n))) es
    fresh-Fits es x n below missing =
        All-map _ _ es fit (All-zip _ _ es below (find_group-none x es missing))
      where
        fit : (e : Entry) → Below n e × Differs x e → Fits e (some (x, n))
        fit none h = tt
        fit (some (d, k)) (lt, ne) = eqv.symmetric d x ∙ ne ∙ ground arith

    raise : (n : ℕ) (e : Entry) → Below n e → Below (suc n) e
    raise n none h = tt
    raise n (some (d, g)) h = omega arith

    join-IsClassified :
        (gs : Groups) (x : List ℕ) (o : Option ℕ)
        → find_group same x gs.placed ≡ o
        → IsClassified gs
        → IsClassified (join same gs x o)
    unfolding join
    join-IsClassified gs x (some g) found c =
        let (y, _, inside) =
          find_group-found (Below (length gs.counts)) x gs.placed c.below found in
        record {
          fits = extend-Fits gs.placed x g c.fits (matched-Fits gs.placed x g c.fits found);
          below =
              rw (length-set gs.counts g (get_or gs.counts g 0 + 1))
                (All-append_one _ gs.placed (some (x, g)) c.below inside);
          sizes = λ h. ground (
            arith,
            count_group-append h gs.placed (some (x, g) ∷ []),
            c.sizes h,
            c.sizes g,
            get_or-set_self gs.counts g (get_or gs.counts g 0 + 1) 0 inside,
            get_or-set_ne gs.counts g h (get_or gs.counts g 0 + 1) 0,
          );
        }
    join-IsClassified gs x none missing c =
        let n = length gs.counts in
        record {
          fits = extend-Fits gs.placed x n c.fits (fresh-Fits gs.placed x n c.below missing);
          below =
              rw (length-append gs.counts (1 ∷ []), add-one)
                (All-append_one _ gs.placed (some (x, n)) (All-map _ _ gs.placed (raise n) c.below)
                  (omega arith));
          sizes = λ h. ground (
            arith,
            count_group-append h gs.placed (some (x, n) ∷ []),
            c.sizes h,
            count_group-above h n gs.placed c.below,
            get_or-append_one gs.counts 1 h 0,
          );
        }

    place-IsClassified :
        (gs : Groups) (r : Response) → IsClassified gs → IsClassified (place same gs r)
    unfolding place
    place-IsClassified gs none c = record {
      fits = extend_silent gs.placed c.fits;
      below = All-append_one _ gs.placed none c.below tt;
      sizes = λ g. omega (arith, count_group-append g gs.placed (none ∷ []), c.sizes g);
    }
    place-IsClassified gs (some x) c = join-IsClassified gs x (find_group same x gs.placed) refl c

    group_from-IsClassified :
        (gs : Groups) (rs : List Response) → IsClassified gs → IsClassified (group_from same gs rs)
    unfolding group_from
    group_from-IsClassified gs [] c = c
    group_from-IsClassified gs (r ∷ rs) c =
        group_from-IsClassified (place same gs r) rs (place-IsClassified gs r c)

    pub group-IsClassified : (rs : List Response) → IsClassified (group same rs)
    unfolding group
    group-IsClassified rs =
        group_from-IsClassified (record { placed = []; counts = [] }) rs
          (record { fits = tt; below = tt; sizes = λ g. refl })
