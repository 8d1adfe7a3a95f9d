-- ===== src/Buffer/Fields.antt =====
-- Several integers, written one after the other and read back.
use platform_rte.Prelude.{
  ℕ, ◌+◌, ◌-◌, ◌*◌, ◌^◌, ◌≤◌, ◌<◌, ◌≡◌, ◌∙◌, inl, inr, refl, sym, ap, ap₂, List, [], ◌∷◌, Option,
  some, arith, map, All, if◌then◌else◌,
}
use platform_rte.Platform.Status.{Status, ok, is_ok}
use platform_rte.Buffer.{Buffer, Order, Width, size_of, bytes_of, peek_bytes, write, read}
use platform_rte.Buffer.Integers.{value_of-bytes_of, length-bytes_of}
use platform_rte.Buffer.Storage.{IsSound, Appended, append_bytes_lem}

-- An integer with the way it is stored.
pub record Field : Type 0 where
  pub order : Order
  pub width : Width
  pub value : ℕ

abbrev pub Fits : Field → Type 0
Fits f = f.value < 2 ^ (8 * size_of f.width)

abbrev pub total : List Field → ℕ
total [] = 0
total (f ∷ fs) = size_of f.width + total fs

-- The writers in turn, until one fails, and the readers in turn.
unfoldable pub write_all : Buffer → List Field → Status × Buffer
write_all b [] = (ok, b)
write_all b (f ∷ fs) =
    let (status, b') = write f.order f.width b f.value in
    let rest = write_all b' fs in if is_ok status then rest else (status, b')

unfoldable pub read_all : Buffer → ℕ → List Field → List (Status × Option ℕ)
read_all b offset [] = []
read_all b offset (f ∷ fs) =
    read f.order f.width b offset ∷ read_all b (offset + size_of f.width) fs

-- A write with room for it.
write_lem :
    (b : Buffer) (f : Field)
    → IsSound b
    → size_of f.width ≤ b.capacity - b.used
    → ((write f.order f.width b f.value).0 ≡ ok)
      × Appended b (bytes_of f.order f.width f.value) (write f.order f.width b f.value).1
unfolding write
write_lem b f s r = elim (append_bytes_lem b (bytes_of f.order f.width f.value) s) [
  | inl (_, e, a) ↦ (e, a)
  | inr (k, _) ↦ absurd (omega (arith, length-bytes_of f.order f.width f.value))
]

write_all_cons :
    (b : Buffer) (f : Field) (fs : List Field)
    → (write f.order f.width b f.value).0 ≡ ok
    → write_all b (f ∷ fs) ≡ write_all (write f.order f.width b f.value).1 fs
unfolding write_all
write_all_cons b f fs e = rw e refl

-- What lies before the old length is as it was.
write_all_keeps :
    (b : Buffer) (fs : List Field)
    → IsSound b
    → total fs ≤ b.capacity - b.used
    → ((write_all b fs).0 ≡ ok)
      × ((o n : ℕ) → o + n ≤ b.used → peek_bytes (write_all b fs).1 o n ≡ peek_bytes b o n)
unfolding write_all
write_all_keeps b [] s r = (refl, λ o n h. refl)
write_all_keeps b (f ∷ fs) s r =
    let (e, a) = write_lem b f s (omega arith) in
    let b' = (write f.order f.width b f.value).1 in
    let w = length-bytes_of f.order f.width f.value in
    let (e', k) = write_all_keeps b' fs a.sound (omega (arith, a.longer, a.same_capacity, w)) in
    rw e (e', λ o n h. k o n (omega (arith, a.longer)) ∙ a.kept o n h)

read_lem :
    (b : Buffer) (f : Field) (offset : ℕ)
    → Fits f
    → peek_bytes b offset (size_of f.width) ≡ (ok, bytes_of f.order f.width f.value)
    → read f.order f.width b offset ≡ (ok, some f.value)
unfolding read
read_lem b f offset h e =
    rw e (ap (λ (v : ℕ). (ok, some v)) (value_of-bytes_of f.order f.width f.value h))

-- Integers that fit their widths, written to a buffer with room for them all: every write succeeds,
-- and reading with the same orders and widths from the old length on gives the same integers.
pub write_all-read_all :
    (b : Buffer) (fs : List Field)
    → IsSound b
    → All Fits fs
    → total fs ≤ b.capacity - b.used
    → ((write_all b fs).0 ≡ ok)
      × (read_all (write_all b fs).1 b.used fs ≡ map (λ (f : Field). (ok, some f.value)) fs)
unfolding write_all read_all
write_all-read_all b [] s h r = (refl, refl)
write_all-read_all b (f ∷ fs) s (h, hs) r =
    let (e, a) = write_lem b f s (omega arith) in
    let b' = (write f.order f.width b f.value).1 in
    let w = length-bytes_of f.order f.width f.value in
    let room : total fs ≤ b'.capacity - b'.used = omega (arith, a.longer, a.same_capacity, w) in
    let (e', k) = write_all_keeps b' fs a.sound room in
    let (e'', rest) = write_all-read_all b' fs a.sound hs room in
    let end = (write_all b' fs).1 in
    let first : read f.order f.width end b.used ≡ (ok, some f.value) = read_lem end f b.used h (
      k b.used (size_of f.width) (omega (arith, a.longer, w))
      ∙ ap (peek_bytes b' b.used) (sym w)
      ∙ a.there) in
    let from_next : read_all end (b.used + size_of f.width) fs ≡ read_all end b'.used fs =
      ap (λ (u : ℕ). read_all end u fs) (omega (arith, a.longer, w)) in
    let all = write_all_cons b f fs e in
    (
      ap (λ (x : Status × Buffer). x.0) all ∙ e',
      ap (λ (x : Status × Buffer). read_all x.1 b.used (f ∷ fs)) all
          ∙ ap₂ (λ (x : Status × Option ℕ) (xs : List (Status × Option ℕ)). x ∷ xs) first
              (from_next ∙ rest),
    )
