-- ===== src/Checksum/Detection.antt =====
-- What the checksums of rte_checksum.c detect.
use Prim.Native.Nat.{bit_xor}
use platform_rte.Prelude.{
  ℕ, zero, suc, ◌/◌, ◌^◌, ◌≤◌, ◌<◌, ◌≡◌, ◌≢◌, ◌∙◌, ◌⊎◌, sym, ap, ap₂, subst, List, [], ◌∷◌, ◌++◌,
  some, arith, All, All-middle, xor_cancel, xor_lt, xor_self, xor_twice, eq_of_xor_zero, xor_comm,
}
use platform_rte.Checksum.{Polynomial, ertms, iso, xz, other, table_of, all_ones, crc_of}
use platform_rte.Checksum.Bitwise.{
  constant_of, shift_bit, shift_bits, shift_bits-xor, bitwise_loop, bitwise_crc, crc_of_bitwise,
}

-- The polynomial fills a register of 61 bits, as ERTMS and XZ do.
abbrev pub IsFull : ℕ → Type 0
IsFull poly = (2 ^ 60 ≤ poly) × (poly < 2 ^ 61)

-- A difference of two registers, and one that is there.
abbrev IsTrace : ℕ → Type 0
IsTrace x = (x ≢ 0) × (x < 2 ^ 61)

shift_bit-IsTrace : (poly x : ℕ) → IsFull poly → IsTrace x → IsTrace (shift_bit poly x)
unfolding shift_bit
shift_bit-IsTrace poly x (l, u) (n, b) = ground (
  arith,
  xor_lt 61 (x / 2) poly (omega arith) u,
  λ (e : bit_xor (x / 2) poly ≡ 0). eq_of_xor_zero (x / 2) poly e,
)

shift_bits-IsTrace : (poly n x : ℕ) → IsFull poly → IsTrace x → IsTrace (shift_bits poly n x)
unfolding shift_bits
shift_bits-IsTrace poly zero x f t = t
shift_bits-IsTrace poly (suc n) x f t =
    shift_bits-IsTrace poly n (shift_bit poly x) f (shift_bit-IsTrace poly x f t)

-- A step on two registers with the same byte, and with two bytes on one register.
step_same :
    (poly c c' d : ℕ)
    → bit_xor (shift_bits poly 8 (bit_xor c d)) (shift_bits poly 8 (bit_xor c' d))
      ≡ shift_bits poly 8 (bit_xor c c')
step_same poly c c' d =
    sym (shift_bits-xor poly 8 (bit_xor c d) (bit_xor c' d))
    ∙ ap (shift_bits poly 8) (xor_cancel c c' d)

step_other :
    (poly c a b : ℕ)
    → bit_xor (shift_bits poly 8 (bit_xor c a)) (shift_bits poly 8 (bit_xor c b))
      ≡ shift_bits poly 8 (bit_xor a b)
step_other poly c a b =
    sym (shift_bits-xor poly 8 (bit_xor c a) (bit_xor c b))
    ∙ ap (shift_bits poly 8) (ap₂ bit_xor (xor_comm c a) (xor_comm c b) ∙ xor_cancel a b c)

-- Registers that differ keep differing.
loop-IsTrace :
    (poly c c' : ℕ) (ds : List ℕ)
    → IsFull poly
    → IsTrace (bit_xor c c')
    → bitwise_loop poly c ds ≢ bitwise_loop poly c' ds
unfolding bitwise_loop
loop-IsTrace poly c c' [] f t = λ e. t.0 (ap (λ (x : ℕ). bit_xor x c') e ∙ xor_self c')
loop-IsTrace poly c c' (d ∷ ds) f t =
    loop-IsTrace poly (shift_bits poly 8 (bit_xor c d)) (shift_bits poly 8 (bit_xor c' d)) ds f
      (subst IsTrace (sym (step_same poly c c' d)) (shift_bits-IsTrace poly 8 (bit_xor c c') f t))

loop_one_byte :
    (poly c a b : ℕ) (before after : List ℕ)
    → IsFull poly
    → a < 256
    → b < 256
    → a ≢ b
    → bitwise_loop poly c (before ++ a ∷ after) ≢ bitwise_loop poly c (before ++ b ∷ after)
unfolding bitwise_loop
loop_one_byte poly c a b [] after f u v n =
    loop-IsTrace poly (shift_bits poly 8 (bit_xor c a)) (shift_bits poly 8 (bit_xor c b)) after f (
      subst IsTrace (sym (step_other poly c a b)) (
        shift_bits-IsTrace poly 8 (bit_xor a b) f
          ((λ e. n (eq_of_xor_zero a b e)), omega (arith, xor_lt 8 a b u v))))
loop_one_byte poly c a b (d ∷ before) after f u v n =
    loop_one_byte poly (shift_bits poly 8 (bit_xor c d)) a b before after f u v n

bitwise_crc_injective :
    (poly : ℕ) (ds ds' : List ℕ)
    → bitwise_crc poly ds ≡ bitwise_crc poly ds'
    → bitwise_loop poly all_ones ds ≡ bitwise_loop poly all_ones ds'
unfolding bitwise_crc
bitwise_crc_injective poly ds ds' h =
    sym (xor_twice (bitwise_loop poly all_ones ds) all_ones)
    ∙ ap (λ (x : ℕ). bit_xor x all_ones) h
    ∙ xor_twice (bitwise_loop poly all_ones ds') all_ones

constant_of-IsFull : (p : Polynomial) → (p ≡ ertms) ⊎ (p ≡ xz) → IsFull (constant_of p)
unfolding constant_of
constant_of-IsFull ertms h = (omega arith, omega arith)
constant_of-IsFull xz h = (omega arith, omega arith)
constant_of-IsFull iso h = absurd (ground arith)
constant_of-IsFull (other n) h = absurd (ground arith)

-- Two byte strings that differ in one byte have different checksums, by the tables of ERTMS and XZ.
pub one_byte_detected :
    (p : Polynomial) (table : List ℕ) (a b : ℕ) (before after : List ℕ)
    → (p ≡ ertms) ⊎ (p ≡ xz)
    → table_of p ≡ some table
    → All (λ d. d < 256) (before ++ a ∷ after)
    → All (λ d. d < 256) (before ++ b ∷ after)
    → a ≢ b
    → crc_of table (before ++ a ∷ after) ≢ crc_of table (before ++ b ∷ after)
one_byte_detected p table a b before after full h bytes bytes' n e =
    let poly = constant_of p in
    let same : bitwise_crc poly (before ++ a ∷ after) ≡ bitwise_crc poly (before ++ b ∷ after) =
      sym (crc_of_bitwise p table (before ++ a ∷ after) h bytes)
      ∙ e
      ∙ crc_of_bitwise p table (before ++ b ∷ after) h bytes' in
    loop_one_byte poly all_ones a b before after (constant_of-IsFull p full)
      (All-middle (λ d. d < 256) before a after bytes)
      (All-middle (λ d. d < 256) before b after bytes') n
      (bitwise_crc_injective poly (before ++ a ∷ after) (before ++ b ∷ after) same)
