-- ===== src/StateTransfer.antt =====
-- rte_state_transfer.c: the registry of the data that is carried across a promotion, and its encoding.
-- Live data are byte strings by address. A codec is application code, which sees the object and the
-- bytes only. A NULL registry or buffer, which only returns INVALID_PARAM, is left out.
pub mod RoundTrip
mod Tests
use Prim.Native.String.{String}
use platform_rte.Prelude.{
  ℕ, ◌+◌, List, [], ◌∷◌, ◌++◌, Option, none, some, Bool, true, false, ltb, leb, ◌==◌, if◌then◌else◌,
  length, take, drop,
}
use platform_rte.Platform.Status.{Status, ok, invalid_param, resource_exhausted, is_ok}
use platform_rte.Buffer.{copy_to}

-- `rte_state_field_encode_fn`: from an object, the bytes that it writes.
abbrev pub EncodeFn : Type 0
EncodeFn = List ℕ → Status × List ℕ

-- `rte_state_field_decode_fn`: from an object and the bytes, the object that it leaves.
abbrev pub DecodeFn : Type 0
DecodeFn = List ℕ → List ℕ → Status × List ℕ

-- `rte_state_field_t`; `address` is the pointer to the live data.
pub record StateField : Type 0 where
  pub name : Option String
  pub address : ℕ
  pub size : ℕ
  pub encode_fn : Option EncodeFn
  pub decode_fn : Option DecodeFn

-- `rte_state_transfer_registry_t`; `field_count` is the length of the list.
abbrev pub Registry : Type 0
Registry = List StateField

-- RTE_STATE_TRANSFER_MAX_FIELDS
abbrev pub max_fields : ℕ
max_fields = 8

pub registry_init : Registry → Status × Registry
registry_init r = (ok, [])

abbrev is_some {ℓ} : {A : Type ℓ} → Option A → Bool
is_some none = false
is_some (some a) = true

abbrev same_bool : Bool → Bool → Bool
same_bool true b = b
same_bool false true = false
same_bool false false = true

-- `rte_state_transfer_register_field_ex`; an address of `none` is NULL.
pub register_field_ex :
    Registry → Option String → Option ℕ → ℕ → Option EncodeFn → Option DecodeFn → Status × Registry
register_field_ex r name none size encode_fn decode_fn = (invalid_param, r)
register_field_ex r name (some address) size encode_fn decode_fn =
    if size == 0
    then (invalid_param, r)
    else if same_bool (is_some encode_fn) (is_some decode_fn)
    then (if leb max_fields (length r) then (resource_exhausted, r) else (
      ok,
      r
          ++ record {
            name = name;
            address = address;
            size = size;
            encode_fn = encode_fn;
            decode_fn = decode_fn;
          }
            ∷ [],
    ))
    else (invalid_param, r)

-- `rte_state_transfer_register_field`
pub register_field : Registry → Option String → Option ℕ → ℕ → Status × Registry
unfolding register_field_ex
register_field r name address size = register_field_ex r name address size none none

-- `rte_state_transfer_encoded_size`
unfoldable pub encoded_size : Registry → ℕ
encoded_size [] = 0
encoded_size (f ∷ fs) = f.size + encoded_size fs

-- The live data, by address.
abbrev pub Memory : Type 0
Memory = ℕ → List ℕ

abbrev pub store : Memory → ℕ → List ℕ → Memory
store m a object b = if b == a then object else m b

-- One field, with its codec or by a copy of its bytes.
unfoldable pub encode_field : StateField → List ℕ → Status × List ℕ
encode_field f object = elim f.encode_fn [
  | none ↦ (ok, take f.size object)
  | some encode ↦ encode object
]

unfoldable pub decode_field : StateField → List ℕ → List ℕ → Status × List ℕ
decode_field f object bytes = elim f.decode_fn [
  | none ↦ (ok, copy_to object 0 bytes)
  | some decode ↦ decode object bytes
]

-- The loop of `rte_state_transfer_encode`: the status, the output and the offset.
unfoldable pub encode_loop : Memory → List ℕ → ℕ → Registry → Status × List ℕ × ℕ
unfolding encode_field
encode_loop m out offset [] = (ok, out, offset)
encode_loop m out offset (f ∷ fs) =
    let (status, bytes) = encode_field f (m f.address) in
    let out' = copy_to out offset bytes in
    let rest = encode_loop m out' (offset + f.size) fs in
    if is_ok status then rest else (status, out', offset)

-- `rte_state_transfer_encode`: `out_size` is the length of the output.
unfoldable pub encode : Registry → Memory → List ℕ → Status × List ℕ × Option ℕ
unfolding encode_loop encoded_size
encode r m out =
    let (status, out', len) = encode_loop m out 0 r in
    if ltb (length out) (encoded_size r)
    then (resource_exhausted, out, none)
    else (status, out', (if is_ok status then some len else none))

-- The loop of `rte_state_transfer_decode`.
unfoldable pub decode_loop : Memory → List ℕ → ℕ → Registry → Status × Memory
unfolding decode_field
decode_loop m bytes offset [] = (ok, m)
decode_loop m bytes offset (f ∷ fs) =
    let (status, object) = decode_field f (m f.address) (take f.size (drop offset bytes)) in
    let m' = store m f.address object in
    let rest = decode_loop m' bytes (offset + f.size) fs in
    if is_ok status then rest else (status, m')

-- `rte_state_transfer_decode`: `in_len` is the length of the input.
unfoldable pub decode : Registry → Memory → List ℕ → Status × Memory
unfolding decode_loop encoded_size
decode r m bytes =
    let done = decode_loop m bytes 0 r in
    if ltb (length bytes) (encoded_size r) then (resource_exhausted, m) else done
