-- ===== src/Voter/Queries.antt =====
-- The queries of rte_voter.c: the count of channels, the look-up by name and the health of the whole.
mod Tests
use Prim.Native.String.{String}
use text.Mathlib.Text.{◌==◌ as ◌=str◌}
use text.Mathlib.TextEquality.{eq_iff}
use text.Mathlib.TextPositions.{eq_refl}
use platform_rte.Prelude.{
  ℕ, zero, suc, ◌<◌, ◌≡◌, sym, ap, List, [], ◌∷◌, Option, none, some, Bool, true, false,
  if◌then◌else◌, get_elem?, Bool-cases, arith, inl, inr, ◌∙◌, subst, refl,
}
use platform_rte.Platform.Status.{Status, ok, invalid_param}
use platform_rte.Channel.{Channel, get_name}
use platform_rte.Voter.Types.{Voter, channel_count}
use platform_rte.Voter.Vote.{get_channel}
use platform_rte.Voter.Receive.{count_healthy}

-- `rte_voter_get_channel_count`, with `none` for NULL.
pub get_channel_count : Option Voter → ℕ
get_channel_count none = 0
get_channel_count (some v) = channel_count v

-- `rte_voter_get_aggregated_health`: the status, the healthy channels and the disagreements.
pub get_aggregated_health : (ℕ → Channel) → Option Voter → Status × Option (ℕ × ℕ)
unfolding count_healthy
get_aggregated_health store none = (invalid_param, none)
get_aggregated_health store (some v) =
    (ok, some (count_healthy store v.channels, v.total_disagreements))

-- The test of the loop: the name is there and `strcmp` gives 0.
unfoldable has_name : String → Option String → Bool
has_name name none = false
has_name name (some s) = s =str name

-- The loop of `rte_voter_get_channel_by_name`.
unfoldable named_loop : (ℕ → Channel) → String → List ℕ → Option ℕ
unfolding has_name get_name
named_loop store name [] = none
named_loop store name (a ∷ as') =
    let rest = named_loop store name as' in
    if has_name name (get_name (some (store a))) then some a else rest

-- `rte_voter_get_channel_by_name`, with `none` for NULL.
unfoldable pub get_channel_by_name : (ℕ → Channel) → Option Voter → Option String → Option ℕ
unfolding named_loop
get_channel_by_name store none name = none
get_channel_by_name store (some v) none = none
get_channel_by_name store (some v) (some name) = named_loop store name v.channels

-- The channel at an address has the name.
abbrev pub Named : (ℕ → Channel) → String → ℕ → Type 0
Named store name a = get_name (some (store a)) ≡ some name

-- What is found in a list: the first channel with the name, or none if no channel has it.
abbrev pub FirstNamed : (ℕ → Channel) → String → (ℕ → Option ℕ) → Option ℕ → Type 0
FirstNamed store name at none = (i a : ℕ) → at i ≡ some a → ¬ Named store name a
FirstNamed store name at (some a) =
    (i : ℕ) × (at i ≡ some a)
    × Named store name a
    × ((j b : ℕ) → j < i → at j ≡ some b → ¬ Named store name b)

has_name-true : (name : String) (s : Option String) → has_name name s ≡ true → s ≡ some name
unfolding has_name
has_name-true name none h = ground arith
has_name-true name (some s) h = ap some ((eq_iff s name).0 h)

has_name-false : (name : String) (s : Option String) → has_name name s ≡ false → ¬ (s ≡ some name)
unfolding has_name
has_name-false name s h e =
    let same : has_name name s ≡ true =
      subst (λ o. has_name name o ≡ true) (sym e) (eq_refl name) in
    ground arith

other_cons :
    (store : ℕ → Channel) (name : String) (a : ℕ) (as' : List ℕ) (j b : ℕ)
    → ¬ Named store name a
    → ((k : ℕ) → j ≡ suc k → get_elem? as' k ≡ some b → ¬ Named store name b)
    → get_elem? (a ∷ as') j ≡ some b
    → ¬ Named store name b
other_cons store name a as' zero b other rest e h =
    let same : b ≡ a = ground arith in other (subst (Named store name) same h)
other_cons store name a as' (suc k) b other rest e h = rest k refl e h

FirstNamed-cons :
    (store : ℕ → Channel) (name : String) (a : ℕ) (as' : List ℕ) (found : Option ℕ)
    → ¬ Named store name a
    → FirstNamed store name (get_elem? as') found
    → FirstNamed store name (get_elem? (a ∷ as')) found
FirstNamed-cons store name a as' none other first =
    λ j b. other_cons store name a as' j b other (λ k e. first k b)
FirstNamed-cons store name a as' (some c) other (i, at, h, before) = (
  suc i,
  at,
  h,
  λ j b lt. other_cons store name a as' j b other (λ k e. before k b (omega arith)),
)

-- One turn of the loop.
FirstNamed-turn :
    (store : ℕ → Channel) (name : String) (a : ℕ) (as' : List ℕ) (found : Option ℕ) (test : Bool)
    → has_name name (get_name (some (store a))) ≡ test
    → FirstNamed store name (get_elem? as') found
    → FirstNamed store name (get_elem? (a ∷ as')) (if test then some a else found)
FirstNamed-turn store name a as' found true h first =
    (0, refl, has_name-true name (get_name (some (store a))) h, λ j b lt. ground arith)
FirstNamed-turn store name a as' found false h first =
    FirstNamed-cons store name a as' found (has_name-false name (get_name (some (store a))) h) first

named_loop-FirstNamed :
    (store : ℕ → Channel) (name : String) (channels : List ℕ)
    → FirstNamed store name (get_elem? channels) (named_loop store name channels)
unfolding named_loop
named_loop-FirstNamed store name [] = λ i a e h. ground arith
named_loop-FirstNamed store name (a ∷ as') =
    FirstNamed-turn store name a as' (named_loop store name as')
      (has_name name (get_name (some (store a)))) refl (named_loop-FirstNamed store name as')

-- The look-up of a name gives the channel at the first index whose channel has that name, or no channel
-- if none of the registered channels has it.
pub get_channel_by_name-FirstNamed :
    (store : ℕ → Channel) (v : Voter) (name : String)
    → FirstNamed store name (get_channel v) (get_channel_by_name store (some v) (some name))
unfolding get_channel_by_name get_channel
get_channel_by_name-FirstNamed store v name = named_loop-FirstNamed store name v.channels
