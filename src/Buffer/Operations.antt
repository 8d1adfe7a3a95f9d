-- ===== src/Buffer/Operations.antt =====
-- What each operation on a buffer keeps.
use platform_rte.Prelude.{
  ℕ, ◌≤◌, ◌<◌, ◌≡◌, ◌≢◌, ◌∙◌, ◌⊎◌, inl, inr, refl, sym, subst, List, some, arith, length,
}
use platform_rte.Platform.Status.{Status, ok, resource_exhausted}
use platform_rte.Buffer.{Buffer, bytes_of, write, clear, is_valid, set_length, copy_in, copy_to}
use platform_rte.Buffer.Storage.{IsSound, append_bytes_lem, length-copy_to}
use platform_rte.Buffer.Fields.{Field}

-- Any operation that changes a buffer.
pub data Operation : Type 0 where
  clearing : Operation
  setting_length : ℕ → Operation
  copying_in : List ℕ → Operation
  writing : Field → Operation

unfoldable pub apply : Buffer → Operation → Status × Buffer
apply b clearing = clear b
apply b (setting_length n) = set_length b n
apply b (copying_in bytes) = copy_in b bytes
apply b (writing f) = write f.order f.width b f.value

-- A sound buffer with the same capacity, and nothing changed by a failure.
abbrev pub Keeps : Buffer → Status × Buffer → Type 0
Keeps b (status, b') = IsSound b' × (b'.capacity ≡ b.capacity) × (status ≢ ok → b' ≡ b)

clear-Keeps : (b : Buffer) → IsSound b → Keeps b (clear b)
unfolding clear is_valid
clear-Keeps b (m, e, l, u) =
    let eq : clear b ≡ (ok, record b { used = 0 }) = ground (arith, e) in
    subst (Keeps b) (sym eq) ((m, e, l, omega arith), refl, λ n. absurd (n refl))

le_or_gt : (a b : ℕ) → (a ≤ b) ⊎ (b < a)
le_or_gt a b = omega arith

set_length-Keeps : (b : Buffer) (n : ℕ) → IsSound b → Keeps b (set_length b n)
unfolding set_length
set_length-Keeps b n (m, e, l, u) = elim (le_or_gt n b.capacity) [
  | inl h ↦
      let eq : set_length b n ≡ (ok, record b { used = n }) = ground (arith, e) in
      subst (Keeps b) (sym eq) ((m, e, l, h), refl, λ k. absurd (k refl))
  | inr h ↦
      let eq : set_length b n ≡ (resource_exhausted, b) = ground (arith, e) in
      subst (Keeps b) (sym eq) ((m, e, l, u), refl, λ k. refl)
]

copy_in-Keeps : (b : Buffer) (bs : List ℕ) → IsSound b → Keeps b (copy_in b bs)
unfolding copy_in
copy_in-Keeps b bs (m, e, l, u) = elim (le_or_gt (length bs) b.capacity) [
  | inl h ↦
      let eq : copy_in b bs ≡ (ok, record b { memory = some (copy_to m 0 bs); used = length bs }) =
        ground (arith, e) in
      subst (Keeps b) (sym eq) (
        (copy_to m 0 bs, refl, length-copy_to m 0 bs (omega (arith, l)) ∙ l, h),
        refl,
        λ k. absurd (k refl),
      )
  | inr h ↦
      let eq : copy_in b bs ≡ (resource_exhausted, b) = ground (arith, e) in
      subst (Keeps b) (sym eq) ((m, e, l, u), refl, λ k. refl)
]

write-Keeps : (b : Buffer) (f : Field) → IsSound b → Keeps b (write f.order f.width b f.value)
unfolding write
write-Keeps b f s = elim (append_bytes_lem b (bytes_of f.order f.width f.value) s) [
  | inl (_, e, a) ↦ (a.sound, a.same_capacity, λ n. absurd (n e))
  | inr (_, eq) ↦ subst (Keeps b) (sym eq) (s, refl, λ k. refl)
]

-- Every operation keeps a sound buffer sound and its capacity; one that fails changes nothing.
pub apply-Keeps : (b : Buffer) (op : Operation) → IsSound b → Keeps b (apply b op)
unfolding apply
apply-Keeps b clearing s = clear-Keeps b s
apply-Keeps b (setting_length n) s = set_length-Keeps b n s
apply-Keeps b (copying_in bytes) s = copy_in-Keeps b bytes s
apply-Keeps b (writing f) s = write-Keeps b f s
