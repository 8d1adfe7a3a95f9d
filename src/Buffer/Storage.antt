-- ===== src/Buffer/Storage.antt =====
-- The storage of a buffer: what an append changes, and what it leaves.
use platform_rte.Prelude.{
  ℕ, zero, suc, ◌+◌, ◌-◌, ◌≤◌, ◌<◌, ◌≡◌, ◌⊎◌, ◌∙◌, inl, inr, refl, sym, ap, subst, List, [], ◌∷◌,
  ◌++◌, some, arith, length, take, drop, length-append, length-take, length-drop,
}
use platform_rte.Platform.Status.{Status, ok, resource_exhausted}
use platform_rte.Buffer.{Buffer, copy_to, append_bytes, peek_bytes}

-- The storage is there with its capacity, and holds the length.
abbrev pub IsSound : Buffer → Type 0
IsSound b =
    (memory : List ℕ) × (b.memory ≡ some memory)
    × (length memory ≡ b.capacity)
    × (b.used ≤ b.capacity)

pub length-copy_to :
    (m : List ℕ) (i : ℕ) (bs : List ℕ)
    → i + length bs ≤ length m
    → length (copy_to m i bs) ≡ length m
length-copy_to m i bs h = omega (
  arith,
  length-append (take i m) (bs ++ drop (i + length bs) m),
  length-append bs (drop (i + length bs) m),
  length-take i m,
  length-drop (i + length bs) m,
)

take-append : (xs ys : List ℕ) → take (length xs) (xs ++ ys) ≡ xs
take-append [] ys = refl
take-append (x ∷ xs) ys = ap (λ (t : List ℕ). x ∷ t) (take-append xs ys)

-- The bytes that were copied, and any that lie before them.
pub copied :
    (m : List ℕ) (i : ℕ) (bs tail : List ℕ)
    → i ≤ length m
    → take (length bs) (drop i (take i m ++ (bs ++ tail))) ≡ bs
copied m zero bs tail h = take-append bs tail
copied [] (suc i) bs tail h = absurd (omega arith)
copied (x ∷ m) (suc i) bs tail h = copied m i bs tail (omega arith)

before_take :
    (m : List ℕ) (i n : ℕ) (tail : List ℕ)
    → n ≤ i
    → i ≤ length m
    → take n (take i m ++ tail) ≡ take n m
before_take m i zero tail h k = refl
before_take m zero (suc n) tail h k = absurd (omega arith)
before_take [] (suc i) (suc n) tail h k = absurd (omega arith)
before_take (x ∷ m) (suc i) (suc n) tail h k =
    ap (λ (t : List ℕ). x ∷ t) (before_take m i n tail (omega arith) (omega arith))

pub before :
    (m : List ℕ) (i o n : ℕ) (tail : List ℕ)
    → o + n ≤ i
    → i ≤ length m
    → take n (drop o (take i m ++ tail)) ≡ take n (drop o m)
before m i zero n tail h k = before_take m i n tail (omega arith) k
before m zero (suc o) n tail h k = absurd (omega arith)
before [] (suc i) (suc o) n tail h k = absurd (omega arith)
before (x ∷ m) (suc i) (suc o) n tail h k = before m i o n tail (omega arith) (omega arith)

-- An append with room for it succeeds and keeps the buffer sound; the bytes stand at the old length,
-- and everything before it is as it was. Without room it fails and changes nothing.
pub record Appended (b : Buffer) (bs : List ℕ) (b' : Buffer) : Type 0 where
  pub sound : IsSound b'
  pub longer : b'.used ≡ b.used + length bs
  pub same_capacity : b'.capacity ≡ b.capacity
  pub there : peek_bytes b' b.used (length bs) ≡ (ok, bs)
  pub kept : (o n : ℕ) → o + n ≤ b.used → peek_bytes b' o n ≡ peek_bytes b o n

append-Appended :
    (b : Buffer) (bs memory : List ℕ)
    → b.memory ≡ some memory
    → length memory ≡ b.capacity
    → b.used ≤ b.capacity
    → length bs ≤ b.capacity - b.used
    → Appended b bs
        (record b { memory = some (copy_to memory b.used bs); used = b.used + length bs })
unfolding peek_bytes
append-Appended b bs memory e l u r = record {
  sound = (
    copy_to memory b.used bs,
    refl,
    length-copy_to memory b.used bs (omega arith) ∙ l,
    omega arith,
  );
  longer = refl;
  same_capacity = refl;
  there = ground (arith, copied memory b.used bs (drop (b.used + length bs) memory) (omega arith));
  kept = λ o n h.
      ground (
        arith,
        e,
        before memory b.used o n (bs ++ drop (b.used + length bs) memory) h (omega arith),
      );
}

append_bytes_room :
    (b : Buffer) (bs memory : List ℕ)
    → b.memory ≡ some memory
    → b.used ≤ b.capacity
    → length bs ≤ b.capacity - b.used
    → append_bytes b bs
      ≡ (ok, record b { memory = some (copy_to memory b.used bs); used = b.used + length bs })
unfolding append_bytes
append_bytes_room b bs memory e u r = ground arith

append_bytes_full :
    (b : Buffer) (bs memory : List ℕ)
    → b.memory ≡ some memory
    → b.used ≤ b.capacity
    → b.capacity - b.used < length bs
    → append_bytes b bs ≡ (resource_exhausted, b)
unfolding append_bytes
append_bytes_full b bs memory e u r = ground arith

le_or_gt : (a b : ℕ) → (a ≤ b) ⊎ (b < a)
le_or_gt a b = omega arith

pub append_bytes_lem :
    (b : Buffer) (bs : List ℕ)
    → IsSound b
    → ((length bs ≤ b.capacity - b.used)
        × ((append_bytes b bs).0 ≡ ok)
        × Appended b bs (append_bytes b bs).1)
      ⊎ ((b.capacity - b.used < length bs) × (append_bytes b bs ≡ (resource_exhausted, b)))
append_bytes_lem b bs (memory, e, l, u) = elim (le_or_gt (length bs) (b.capacity - b.used)) [
  | inl r ↦
      let eq = append_bytes_room b bs memory e u r in
      inl (
        r,
        ap (λ (x : Status × Buffer). x.0) eq,
        subst (λ (x : Status × Buffer). Appended b bs x.1) (sym eq)
            (append-Appended b bs memory e l u r),
      )
  | inr r ↦ inr (r, append_bytes_full b bs memory e u r)
]
