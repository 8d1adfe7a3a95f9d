-- ===== src/StateTransfer/Tests.antt =====
-- A transfer of two fields, one with a codec.
use platform_rte.Prelude.{ℕ, refl, List, [], ◌∷◌, some, none, arith, ◌==◌, if◌then◌else◌, replicate}
use platform_rte.Platform.Status.{Status, ok}
use platform_rte.StateTransfer.{Registry, Memory, encode, encoded_size, encode_field, decode_field}
use platform_rte.StateTransfer.RoundTrip.{HandsOver, encode-decode}

-- A flag that lives in two bytes and travels in one.
first_byte : List ℕ → Status × List ℕ
first_byte [] = (ok, 0 ∷ [])
first_byte (b ∷ bs) = (ok, b ∷ [])

widened : List ℕ → List ℕ → Status × List ℕ
widened object [] = (ok, object)
widened object (b ∷ bs) = (ok, b ∷ 0 ∷ [])

abbrev registry : Registry
registry =
    record { name = none; address = 8; size = 3; encode_fn = none; decode_fn = none }
    ∷ record {
      name = none;
      address = 9;
      size = 1;
      encode_fn = some first_byte;
      decode_fn = some widened;
    }
    ∷ []

abbrev online : Memory
online a = if a == 8 then 1 ∷ 2 ∷ 3 ∷ [] else if a == 9 then 5 ∷ 0 ∷ [] else []

abbrev standby : Memory
standby a = if a == 8 then 0 ∷ 0 ∷ 0 ∷ [] else if a == 9 then 0 ∷ 0 ∷ [] else 7 ∷ []

encode-decode_example : HandsOver registry online standby (encode registry online (replicate 6 0))
unfolding encode_field decode_field first_byte widened encoded_size
encode-decode_example =
    encode-decode registry online standby (replicate 6 0) ((ground arith, tt), (tt, tt))
      ((1 ∷ 2 ∷ 3 ∷ [], refl, refl, refl), ((5 ∷ [], refl, refl, refl), tt)) (omega arith)
