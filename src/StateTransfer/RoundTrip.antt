-- ===== src/StateTransfer/RoundTrip.antt =====
-- The state that a site encodes is the state that its successor decodes.
use platform_rte.Prelude.{
  ℕ, ◌+◌, ◌≤◌, ◌≡◌, ◌≢◌, ◌∙◌, refl, sym, ap, subst, List, [], ◌∷◌, ◌++◌, Option, some, arith,
  length, take, drop, All,
}
use platform_rte.Platform.Status.{Status, ok}
use platform_rte.Buffer.{copy_to}
use platform_rte.Buffer.Storage.{length-copy_to, copied, before}
use platform_rte.StateTransfer.{
  StateField, Registry, Memory, store, encoded_size, encode_field, decode_field, encode_loop,
  encode, decode_loop, decode,
}

-- Encoding the first object gives as many bytes as the field has, from which decoding into the second
-- makes the first.
abbrev pub RoundTrips : StateField → List ℕ → List ℕ → Type 0
RoundTrips f object target =
    (bytes : List ℕ) × (encode_field f object ≡ (ok, bytes))
    × (length bytes ≡ f.size)
    × (decode_field f target bytes ≡ (ok, object))

-- An address that no field has.
abbrev pub Unused : ℕ → Registry → Type 0
Unused a fs = All (λ (f : StateField). a ≢ f.address) fs

-- No two fields have the same address.
abbrev pub Distinct : Registry → Type 0
Distinct [] = Unit
Distinct (f ∷ fs) = Unused f.address fs × Distinct fs

-- Each field of the output decodes to its object.
Holds : Memory → Memory → List ℕ → ℕ → Registry → Type 0
Holds m m' out offset [] = Unit
Holds m m' out offset (f ∷ fs) =
    (decode_field f (m' f.address) (take f.size (drop offset out)) ≡ (ok, m f.address))
    × Holds m m' out (offset + f.size) fs

abbrev AllRoundTrip : Memory → Memory → Registry → Type 0
AllRoundTrip m m' fs = All (λ (f : StateField). RoundTrips f (m f.address) (m' f.address)) fs

-- The loop of the encoding succeeds and leaves what is before its offset.
record Encoded (m m' : Memory) (out : List ℕ) (offset : ℕ) (fs : Registry) (r : Status × List ℕ × ℕ)
    : Type 0 where
  done : r.0 ≡ ok
  end : r.2 ≡ offset + encoded_size fs
  same_length : length r.1 ≡ length out
  kept : (o n : ℕ) → o + n ≤ offset → take n (drop o r.1) ≡ take n (drop o out)
  holds : Holds m m' r.1 offset fs

encode_loop_cons :
    (m : Memory) (out bytes : List ℕ) (offset : ℕ) (f : StateField) (fs : Registry)
    → encode_field f (m f.address) ≡ (ok, bytes)
    → encode_loop m out offset (f ∷ fs)
      ≡ encode_loop m (copy_to out offset bytes) (offset + f.size) fs
unfolding encode_loop
encode_loop_cons m out bytes offset f fs e = rw e refl

-- One field in front of the others.
Encoded-cons :
    (m m' : Memory) (out bytes : List ℕ) (offset : ℕ) (f : StateField) (fs : Registry)
    (r : Status × List ℕ × ℕ)
    → length bytes ≡ f.size
    → decode_field f (m' f.address) bytes ≡ (ok, m f.address)
    → offset + (f.size + encoded_size fs) ≤ length out
    → Encoded m m' (copy_to out offset bytes) (offset + f.size) fs r
    → Encoded m m' out offset (f ∷ fs) r
unfolding Holds encoded_size
Encoded-cons m m' out bytes offset f fs r l d fits rest =
    let tail = drop (offset + length bytes) out in
    let there : take f.size (drop offset r.1) ≡ bytes =
      rest.kept offset f.size (omega arith)
      ∙ ap (λ (n : ℕ). take n (drop offset (copy_to out offset bytes))) (sym l)
      ∙ copied out offset bytes tail (omega arith) in
    record {
      done = rest.done;
      end = rest.end ∙ omega arith;
      same_length = rest.same_length ∙ length-copy_to out offset bytes (omega arith);
      kept = λ o n k.
          rest.kept o n (omega arith) ∙ before out offset o n (bytes ++ tail) k (omega arith);
      holds = (ap (decode_field f (m' f.address)) there ∙ d, rest.holds);
    }

encode_loop-Encoded :
    (m m' : Memory) (out : List ℕ) (offset : ℕ) (fs : Registry)
    → AllRoundTrip m m' fs
    → offset + encoded_size fs ≤ length out
    → Encoded m m' out offset fs (encode_loop m out offset fs)
unfolding encode_loop encoded_size Holds
encode_loop-Encoded m m' out offset [] h r = record {
  done = refl;
  end = omega arith;
  same_length = refl;
  kept = λ o n k. refl;
  holds = tt;
}
encode_loop-Encoded m m' out offset (f ∷ fs) ((bytes, e, l, d), hs) r =
    subst (Encoded m m' out offset (f ∷ fs)) (sym (encode_loop_cons m out bytes offset f fs e)) (
      Encoded-cons m m' out bytes offset f fs
        (encode_loop m (copy_to out offset bytes) (offset + f.size) fs) l d r
        (encode_loop-Encoded m m' (copy_to out offset bytes) (offset + f.size) fs hs
          (omega (arith, length-copy_to out offset bytes (omega arith)))))

decode_loop_cons :
    (m m' : Memory) (bytes : List ℕ) (offset : ℕ) (f : StateField) (fs : Registry)
    → decode_field f (m' f.address) (take f.size (drop offset bytes)) ≡ (ok, m f.address)
    → decode_loop m' bytes offset (f ∷ fs)
      ≡ decode_loop (store m' f.address (m f.address)) bytes (offset + f.size) fs
unfolding decode_loop
decode_loop_cons m m' bytes offset f fs e = rw e refl

store_other : (m : Memory) (a b : ℕ) (x : List ℕ) → b ≢ a → store m a x b ≡ m b
store_other m a b x h = ground arith

store_self : (m : Memory) (a : ℕ) (x : List ℕ) → store m a x a ≡ x
store_self m a x = ground arith

-- A store to an address that no later field has leaves what those fields decode to.
Holds-store :
    (m m' : Memory) (bytes : List ℕ) (offset a : ℕ) (x : List ℕ) (fs : Registry)
    → Unused a fs
    → Holds m m' bytes offset fs
    → Holds m (store m' a x) bytes offset fs
unfolding Holds
Holds-store m m' bytes offset a x [] u h = tt
Holds-store m m' bytes offset a x (f ∷ fs) (n, u) (h, hs) = (
  ap (λ (t : List ℕ). decode_field f t (take f.size (drop offset bytes)))
        (store_other m' a f.address x (λ e. n (sym e)))
      ∙ h,
  Holds-store m m' bytes (offset + f.size) a x fs u hs,
)

-- After the loop the fields have their objects, and no other address has changed.
abbrev Transferred : Memory → Memory → Registry → Status × Memory → Type 0
Transferred m m' fs (status, after) =
    (status ≡ ok)
    × All (λ (f : StateField). after f.address ≡ m f.address) fs
    × ((a : ℕ) → Unused a fs → after a ≡ m' a)

decode_loop-Transferred :
    (m m' : Memory) (bytes : List ℕ) (offset : ℕ) (fs : Registry)
    → Distinct fs
    → Holds m m' bytes offset fs
    → Transferred m m' fs (decode_loop m' bytes offset fs)
unfolding decode_loop Holds
decode_loop-Transferred m m' bytes offset [] d h = (refl, tt, λ a u. refl)
decode_loop-Transferred m m' bytes offset (f ∷ fs) (u, d) (h, hs) =
    let m₁ = store m' f.address (m f.address) in
    let (s, each, others) =
      decode_loop-Transferred m m₁ bytes (offset + f.size) fs d
        (Holds-store m m' bytes (offset + f.size) f.address (m f.address) fs u hs) in
    subst (Transferred m m' (f ∷ fs)) (sym (decode_loop_cons m m' bytes offset f fs h)) (
      s,
      (others f.address u ∙ store_self m' f.address (m f.address), each),
      λ a (n, v). others a v ∙ store_other m' f.address a (m f.address) n,
    )

encode_room :
    (r : Registry) (m : Memory) (out : List ℕ)
    → encoded_size r ≤ length out
    → (encode_loop m out 0 r).0 ≡ ok
    → encode r m out ≡ (ok, (encode_loop m out 0 r).1, some (encode_loop m out 0 r).2)
unfolding encode
encode_room r m out h e = ground arith

decode_room :
    (r : Registry) (m : Memory) (bytes : List ℕ)
    → encoded_size r ≤ length bytes
    → decode r m bytes ≡ decode_loop m bytes 0 r
unfolding decode
decode_room r m bytes h = ground arith

-- What a transfer leaves: the status and the length of the encoding, and the decoded state.
abbrev pub HandsOver : Registry → Memory → Memory → Status × List ℕ × Option ℕ → Type 0
HandsOver r m m' (status, out, len) =
    (status ≡ ok) × (len ≡ some (encoded_size r)) × Transferred m m' r (decode r m' out)

-- A registry of fields with different addresses whose codecs fit: encoding one site's state into an
-- output with room for it succeeds with the encoded size, and decoding the output at another site
-- succeeds, gives each field there the object that it had, and changes no other address.
pub encode-decode :
    (r : Registry) (m m' : Memory) (out : List ℕ)
    → Distinct r
    → All (λ (f : StateField). RoundTrips f (m f.address) (m' f.address)) r
    → encoded_size r ≤ length out
    → HandsOver r m m' (encode r m out)
encode-decode r m m' out d h fits =
    let enc = encode_loop-Encoded m m' out 0 r h (omega arith) in
    let out' = (encode_loop m out 0 r).1 in
    subst (HandsOver r m m') (sym (encode_room r m out fits enc.done)) (
      refl,
      ap some (enc.end ∙ omega arith),
      subst (Transferred m m' r) (sym (decode_room r m' out' (omega (arith, enc.same_length))))
          (decode_loop-Transferred m m' out' 0 r d enc.holds),
    )
