-- ===== src/Checksum/Bitwise.antt =====
-- The tables compute the division by the polynomials of rte_checksum.h, bit by bit.
use Prim.Native.Nat.{bit_xor}
use mathlib.Core.Option.{some-injective}
use platform_rte.Prelude.{
  ℕ, zero, suc, ◌+◌, ◌*◌, ◌/◌, ◌%◌, ◌^◌, ◌<◌, ◌≡◌, ◌∙◌, refl, sym, ap, ap₂, List, [], ◌∷◌, some,
  arith, ◌==◌, if◌then◌else◌, map, get_or, All, xor_half, xor_low, xor_swap, xor_cancel, xor_byte,
  xor_fields, double_power, xor_assoc, xor-zero, xor_swap, xor_cancel, xor_byte, xor_fields,
}
use platform_rte.Checksum.{
  Polynomial, ertms, iso, xz, other, table_of, all_ones, crc_step, crc_loop, crc_of,
}
use platform_rte.Checksum.Tables.{ertms_table, iso_table, xz_table}

-- The constants that rte_checksum.h gives for the polynomials.
unfoldable pub constant_of : Polynomial → ℕ
constant_of ertms = 0x1d4f63b86e40e541
constant_of iso = 0x1b
constant_of xz = 0x142f0e1eba9ea3c3
constant_of (other n) = 0

-- One step of the division, lowest bit first, and `n` of them.
unfoldable pub shift_bit : ℕ → ℕ → ℕ
shift_bit poly c = if c % 2 == 1 then bit_xor (c / 2) poly else c / 2

unfoldable pub shift_bits : ℕ → ℕ → ℕ → ℕ
shift_bits poly zero c = c
shift_bits poly (suc n) c = shift_bits poly n (shift_bit poly c)

-- The checksum without tables: each byte is brought in and shifted out bit by bit.
unfoldable pub bitwise_loop : ℕ → ℕ → List ℕ → ℕ
bitwise_loop poly crc [] = crc
bitwise_loop poly crc (d ∷ ds) = bitwise_loop poly (shift_bits poly 8 (bit_xor crc d)) ds

unfoldable pub bitwise_crc : ℕ → List ℕ → ℕ
bitwise_crc poly ds = bit_xor (bitwise_loop poly all_ones ds) all_ones

-- The numbers below `n`, in order, from `i`.
unfoldable pub from : ℕ → ℕ → List ℕ
from i zero = []
from i (suc n) = i ∷ from (suc i) n

get_or-map_from : (f : ℕ → ℕ) (i n k : ℕ) → k < n → get_or (map f (from i n)) k 0 ≡ f (i + k)
unfolding from
get_or-map_from f i zero k h = absurd (omega arith)
get_or-map_from f i (suc n) zero h = ap f (omega arith)
get_or-map_from f i (suc n) (suc k) h =
    get_or-map_from f (suc i) n k (omega arith) ∙ ap f (omega arith)

ertms_entries : ertms_table ≡ map (shift_bits (constant_of ertms) 8) (from 0 256)
unfolding shift_bits shift_bit constant_of from
ertms_entries = refl

iso_entries : iso_table ≡ map (shift_bits (constant_of iso) 8) (from 0 256)
unfolding shift_bits shift_bit constant_of from
iso_entries = refl

xz_entries : xz_table ≡ map (shift_bits (constant_of xz) 8) (from 0 256)
unfolding shift_bits shift_bit constant_of from
xz_entries = refl

shift_bit-xor :
    (poly a b : ℕ) → shift_bit poly (bit_xor a b) ≡ bit_xor (shift_bit poly a) (shift_bit poly b)
unfolding shift_bit
shift_bit-xor poly a b = ground (
  arith,
  xor_half a b,
  xor_low a b,
  xor_swap (a / 2) poly (b / 2),
  xor_assoc (a / 2) (b / 2) poly,
  xor_cancel (a / 2) (b / 2) poly,
)

-- The division is linear.
pub shift_bits-xor :
    (poly n a b : ℕ)
    → shift_bits poly n (bit_xor a b) ≡ bit_xor (shift_bits poly n a) (shift_bits poly n b)
unfolding shift_bits
shift_bits-xor poly zero a b = refl
shift_bits-xor poly (suc n) a b =
    ap (shift_bits poly n) (shift_bit-xor poly a b)
    ∙ shift_bits-xor poly n (shift_bit poly a) (shift_bit poly b)

shift_bit_even : (poly x : ℕ) → shift_bit poly (2 * x) ≡ x
unfolding shift_bit
shift_bit_even poly x = ground arith

-- What lies above the low `n` bits is only moved down.
shift_bits_high : (poly n q : ℕ) → shift_bits poly n (q * 2 ^ n) ≡ q
unfolding shift_bits
shift_bits_high poly zero q = omega arith
shift_bits_high poly (suc n) q =
    ap (shift_bits poly n)
      (ap (shift_bit poly) (double_power q n) ∙ shift_bit_even poly (q * 2 ^ n))
    ∙ shift_bits_high poly n q

table_entries :
    (p : Polynomial) (table : List ℕ)
    → table_of p ≡ some table
    → table ≡ map (shift_bits (constant_of p) 8) (from 0 256)
unfolding table_of
table_entries ertms table h = sym (some-injective _ _ h) ∙ ertms_entries
table_entries iso table h = sym (some-injective _ _ h) ∙ iso_entries
table_entries xz table h = sym (some-injective _ _ h) ∙ xz_entries
table_entries (other n) table h = absurd (ground arith)

-- A byte that is brought in and shifted out is one look-up.
crc_step_bitwise :
    (p : Polynomial) (table : List ℕ) (crc d : ℕ)
    → table_of p ≡ some table
    → d < 256
    → crc_step table crc d ≡ shift_bits (constant_of p) 8 (bit_xor crc d)
unfolding crc_step
crc_step_bitwise p table crc d h lt =
    let c = bit_xor crc d in
    let q = c / 2 ^ 8 in
    let r = c % 2 ^ 8 in
    let entry : get_or table r 0 ≡ shift_bits (constant_of p) 8 r =
      ap (λ (t : List ℕ). get_or t r 0) (table_entries p table h)
      ∙ get_or-map_from (shift_bits (constant_of p) 8) 0 256 r (omega arith)
      ∙ ap (shift_bits (constant_of p) 8) (omega arith) in
    let high : q ≡ crc / 2 ^ 8 =
      xor_byte crc d ∙ ap (bit_xor (crc / 2 ^ 8)) (omega arith) ∙ xor-zero (crc / 2 ^ 8) in
    let split : bit_xor (q * 2 ^ 8) r ≡ c = xor_fields 8 q r (omega arith) ∙ omega arith in
    let parts : shift_bits (constant_of p) 8 (bit_xor (q * 2 ^ 8) r)
        ≡ bit_xor q (shift_bits (constant_of p) 8 r) =
      shift_bits-xor (constant_of p) 8 (q * 2 ^ 8) r
      ∙ ap (λ (x : ℕ). bit_xor x (shift_bits (constant_of p) 8 r))
          (shift_bits_high (constant_of p) 8 q) in
    ap₂ bit_xor (sym high) entry ∙ sym parts ∙ ap (shift_bits (constant_of p) 8) split

pub crc_loop_bitwise :
    (p : Polynomial) (table : List ℕ) (crc : ℕ) (ds : List ℕ)
    → table_of p ≡ some table
    → All (λ d. d < 256) ds
    → crc_loop table crc ds ≡ bitwise_loop (constant_of p) crc ds
unfolding crc_loop bitwise_loop
crc_loop_bitwise p table crc [] h b = refl
crc_loop_bitwise p table crc (d ∷ ds) h (b, bs) =
    crc_loop_bitwise p table (crc_step table crc d) ds h bs
    ∙ ap (λ (c : ℕ). bitwise_loop (constant_of p) c ds) (crc_step_bitwise p table crc d h b)

-- The checksum by the table of a polynomial is, for every byte string, the one that is computed
-- without a table, bit by bit, by division by the polynomial that the header gives.
pub crc_of_bitwise :
    (p : Polynomial) (table ds : List ℕ)
    → table_of p ≡ some table
    → All (λ d. d < 256) ds
    → crc_of table ds ≡ bitwise_crc (constant_of p) ds
unfolding crc_of bitwise_crc
crc_of_bitwise p table ds h b =
    ap (λ (c : ℕ). bit_xor c all_ones) (crc_loop_bitwise p table all_ones ds h b)
