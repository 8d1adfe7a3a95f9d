-- ===== src/Buffer/Tests.antt =====
-- Concrete buffers, and the theorems about them there.
use platform_rte.Prelude.{◌≡◌, refl, List, [], ◌∷◌, some, arith, replicate}
use platform_rte.Platform.Status.{ok}
use platform_rte.Buffer.{Buffer, le, be, w16, w32, w64, bytes_of, little_bytes, big_bytes}
use platform_rte.Buffer.Fields.{Field, write_all, read_all, write_all-read_all}
use platform_rte.Buffer.Operations.{Keeps, apply, writing, apply-Keeps}

bytes_little : bytes_of le w32 0x01020304 ≡ 4 ∷ 3 ∷ 2 ∷ 1 ∷ []
unfolding bytes_of little_bytes
bytes_little = refl

bytes_big : bytes_of be w32 0x01020304 ≡ 1 ∷ 2 ∷ 3 ∷ 4 ∷ []
unfolding bytes_of big_bytes
bytes_big = refl

-- A buffer of 16 bytes, two of them used.
abbrev buffer : Buffer
buffer = record { memory = some (replicate 16 9); capacity = 16; used = 2 }

abbrev fields : List Field
fields =
    record { order = le; width = w32; value = 70000 }
    ∷ record { order = be; width = w64; value = 0xffffffffffffffff }
    ∷ record { order = be; width = w16; value = 513 }
    ∷ []

write_all-read_all_example :
    ((write_all buffer fields).0 ≡ ok)
    × (read_all (write_all buffer fields).1 2 fields
        ≡ (ok, some 70000) ∷ (ok, some 0xffffffffffffffff) ∷ (ok, some 513) ∷ [])
write_all-read_all_example =
    write_all-read_all buffer fields (replicate 16 9, refl, refl, omega arith)
      (omega arith, (omega arith, (omega arith, tt))) (omega arith)

apply-Keeps_example :
    Keeps buffer (apply buffer (writing (record { order = le; width = w16; value = 1 })))
apply-Keeps_example =
    apply-Keeps buffer (writing (record { order = le; width = w16; value = 1 }))
      (replicate 16 9, refl, refl, omega arith)
