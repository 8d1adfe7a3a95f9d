-- ===== src/Buffer.antt =====
-- rte_buffer.c: a byte buffer over storage of its caller, with integers written in either byte order.
-- A NULL buffer, source, destination or result, which only returns INVALID_PARAM, is left out.
pub mod Integers
pub mod Storage
pub mod Fields
pub mod Operations
mod Tests
use Prim.Native.Nat.{bit_or}
use platform_rte.Prelude.{
  ℕ, zero, suc, ◌+◌, ◌-◌, ◌*◌, ◌/◌, ◌%◌, ◌^◌, List, [], ◌∷◌, ◌++◌, Option, none, some, Bool, true,
  false, not, ◌||◌, ltb, leb, ◌==◌, if◌then◌else◌, length, take, drop,
}
use platform_rte.Platform.Status.{
  Status, ok, invalid_param, resource_exhausted, internal_error, is_ok,
}

-- `rte_buffer_t`; `memory` is the storage that `data` points at, `none` for NULL.
pub record Buffer : Type 0 where
  pub memory : Option (List ℕ)
  pub capacity : ℕ
  pub used : ℕ

-- `memcpy` of some bytes to an offset.
abbrev pub copy_to : List ℕ → ℕ → List ℕ → List ℕ
copy_to memory offset bytes = take offset memory ++ (bytes ++ drop (offset + length bytes) memory)

-- `rte_buffer_init` on storage of `capacity` bytes.
unfoldable pub init : Buffer → Option (List ℕ) → ℕ → Status × Buffer
init b none capacity = (invalid_param, b)
init b (some storage) capacity =
    if capacity == 0
    then (invalid_param, b)
    else (ok, record { memory = some storage; capacity = capacity; used = 0 })

unfoldable pub is_valid : Buffer → Bool
is_valid b = elim b.memory [ none ↦ false | some memory ↦ leb b.used b.capacity ]

unfoldable pub clear : Buffer → Status × Buffer
unfolding is_valid
clear b = if is_valid b then (ok, record b { used = 0 }) else (invalid_param, b)

unfoldable pub set_length : Buffer → ℕ → Status × Buffer
set_length b n = elim b.memory [
  | none ↦ (invalid_param, b)
  | some memory ↦ if ltb b.capacity n then (resource_exhausted, b) else (ok, record b { used = n })
]

unfoldable pub copy_in : Buffer → List ℕ → Status × Buffer
copy_in b source = elim b.memory [
  | none ↦ (invalid_param, b)
  | some memory ↦
      if ltb b.capacity (length source)
      then (resource_exhausted, b)
      else (ok, record b { memory = some (copy_to memory 0 source); used = length source })
]

-- `rte_buffer_copy_out`: the bytes that are copied.
unfoldable pub copy_out : Buffer → ℕ → Status × List ℕ
copy_out b dest_capacity = elim b.memory [
  | none ↦ (invalid_param, [])
  | some memory ↦
      if ltb dest_capacity b.used then (resource_exhausted, []) else (ok, take b.used memory)
]

-- `rte_buffer_as_const`: the bytes of the view.
unfoldable pub as_const : Buffer → Status × Option (List ℕ)
as_const b = elim b.memory [
  | none ↦ (invalid_param, none)
  | some memory ↦
      if ltb b.capacity b.used then (internal_error, none) else (ok, some (take b.used memory))
]

-- `rte_buffer_append_bytes`
unfoldable pub append_bytes : Buffer → List ℕ → Status × Buffer
append_bytes b bytes = elim b.memory [
  | none ↦ (invalid_param, b)
  | some memory ↦
      if not (leb b.used b.capacity)
      then (invalid_param, b)
      else if ltb (b.capacity - b.used) (length bytes)
      then (resource_exhausted, b)
      else (
        ok,
        record b { memory = some (copy_to memory b.used bytes); used = b.used + length bytes },
      )
]

-- `rte_buffer_peek_bytes`; the subtraction runs only where `offset` is not above the length.
unfoldable pub peek_bytes : Buffer → ℕ → ℕ → Status × List ℕ
peek_bytes b offset n = elim b.memory [
  | none ↦ (invalid_param, [])
  | some memory ↦
      if ltb b.used offset || ltb (b.used - offset) n
      then (resource_exhausted, [])
      else (ok, take n (drop offset memory))
]

-- `(value >> s) & 0xFF`
abbrev pub byte_at : ℕ → ℕ → ℕ
byte_at value s = value / 2 ^ s % 2 ^ 8

-- The bytes that the `_le` writers store, from shift `s`, and those of the `_be` writers.
unfoldable pub little_bytes : ℕ → ℕ → ℕ → List ℕ
little_bytes value s zero = []
little_bytes value s (suc n) = byte_at value s ∷ little_bytes value (s + 8) n

unfoldable pub big_bytes : ℕ → ℕ → List ℕ
big_bytes value zero = []
big_bytes value (suc n) = byte_at value (8 * n) ∷ big_bytes value n

-- The value that the `_le` readers put together from shift `s`, and that of the `_be` readers.
unfoldable pub little_value : ℕ → ℕ → List ℕ → ℕ
little_value v s [] = v
little_value v s (b ∷ bs) = little_value (bit_or v (b * 2 ^ s)) (s + 8) bs

unfoldable pub big_value : ℕ → List ℕ → ℕ
big_value v [] = v
big_value v (b ∷ bs) = big_value (bit_or v (b * 2 ^ (8 * length bs))) bs

pub data Order : Type 0 where
  le : Order
  be : Order

-- The three widths, and their sizes in bytes.
pub data Width : Type 0 where
  w16 : Width
  w32 : Width
  w64 : Width

abbrev pub size_of : Width → ℕ
size_of w16 = 2
size_of w32 = 4
size_of w64 = 8

unfoldable pub bytes_of : Order → Width → ℕ → List ℕ
unfolding little_bytes big_bytes
bytes_of le w value = little_bytes value 0 (size_of w)
bytes_of be w value = big_bytes value (size_of w)

unfoldable pub value_of : Order → List ℕ → ℕ
unfolding little_value big_value
value_of le bytes = little_value 0 0 bytes
value_of be bytes = big_value 0 bytes

-- The six writers, `rte_buffer_write_u16_le` to `_u64_be`.
unfoldable pub write : Order → Width → Buffer → ℕ → Status × Buffer
unfolding bytes_of append_bytes
write o w b value = append_bytes b (bytes_of o w value)

-- The six readers, `rte_buffer_read_u16_le` to `_u64_be`.
unfoldable pub read : Order → Width → Buffer → ℕ → Status × Option ℕ
unfolding value_of peek_bytes
read o w b offset =
    let (status, bytes) = peek_bytes b offset (size_of w) in
    if is_ok status then (ok, some (value_of o bytes)) else (status, none)
