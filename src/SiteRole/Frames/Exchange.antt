-- ===== src/SiteRole/Frames/Exchange.antt =====
-- What a site learns from the frame of its counterpart is what the counterpart put into it.
use mathlib.Core.List.{append-nil}
use platform_rte.Prelude.{
  ℕ, zero, suc, ◌+◌, ◌-◌, ◌^◌, ◌<◌, ◌≡◌, refl, sym, ap, ◌∙◌, List, [], ◌∷◌, ◌++◌, Bool, true, false,
  not, ◌&&◌, ◌==◌, if◌then◌else◌, length, take, drop, replicate, get_or, length-append, length-take,
  arith, some,
}
use platform_rte.Platform.Status.{ok}
use platform_rte.Buffer.{copy_to, bytes_of, read, peek_bytes, little_bytes, le, w32}
use platform_rte.Buffer.Integers.{value_of-bytes_of}
use platform_rte.SiteRole.Types.{SiteRole, Config, valid_marker}
use platform_rte.SiteRole.Frames.{encode_frame, receive_frame, decode_frame, take_payload}

-- The state region of a frame: what the application encodes, over zeros.
abbrev pub region : Config → List ℕ → List ℕ
region cfg encoded = take (cfg.frame_size - 7) (encoded ++ replicate (cfg.frame_size - 7) 0)

length-replicate : (n a : ℕ) → length (replicate n a) ≡ n
length-replicate zero a = refl
length-replicate (suc n) a = omega (arith, length-replicate n a)

length-region : (cfg : Config) (encoded : List ℕ) → length (region cfg encoded) ≡ cfg.frame_size - 7
length-region cfg encoded = omega (
  arith,
  length-take (cfg.frame_size - 7) (encoded ++ replicate (cfg.frame_size - 7) 0),
  length-append encoded (replicate (cfg.frame_size - 7) 0),
  length-replicate (cfg.frame_size - 7) 0,
)

take_all : (xs ys : List ℕ) → take (length xs) (xs ++ ys) ≡ xs
take_all [] ys = refl
take_all (x ∷ xs) ys = ap (λ (t : List ℕ). x ∷ t) (take_all xs ys)

drop_all : (xs : List ℕ) → drop (length xs) xs ≡ []
drop_all [] = refl
drop_all (x ∷ xs) = drop_all xs

last_of : (xs : List ℕ) (m : ℕ) → get_or (xs ++ m ∷ []) (length xs) 0 ≡ m
last_of [] m = refl
last_of (x ∷ xs) m = last_of xs m

-- A full frame replaces what the receive buffer held.
copy_to_full : (m bs : List ℕ) → length bs ≡ length m → copy_to m 0 bs ≡ bs
copy_to_full m bs h =
    ap (λ (k : ℕ). bs ++ drop k m) (omega arith)
    ∙ ap (λ (t : List ℕ). bs ++ t) (drop_all m)
    ∙ append-nil bs

-- Where the parts of a frame stand, by its length.
module _ (a b v m : ℕ) (st : List ℕ) (n : ℕ) (size : 7 + length st ≡ n) (small : v < 2 ^ 32) where
  abbrev frame : List ℕ
  frame = a ∷ b ∷ bytes_of le w32 v ++ (st ++ m ∷ [])

  length-frame : length frame ≡ n
  unfolding bytes_of little_bytes
  length-frame = omega (arith, length-append st (m ∷ []))

  frame_marker : get_or frame (n - 1) 0 ≡ m
  unfolding bytes_of little_bytes
  frame_marker =
      let e : n - 1 ≡ suc (suc (suc (suc (suc (suc (length st)))))) = omega arith in
      ap (λ (k : ℕ). get_or frame k 0) e ∙ last_of st m

  frame_state : take (n - 7) (drop 6 frame) ≡ st
  unfolding bytes_of little_bytes
  frame_state = ap (λ (k : ℕ). take k (st ++ m ∷ [])) (omega arith) ∙ take_all st (m ∷ [])

  frame_number : take 4 (drop 2 frame) ≡ bytes_of le w32 v
  unfolding bytes_of little_bytes
  frame_number = refl

  frame_cycle :
      read le w32 (record { memory = some frame; capacity = n; used = n }) 2 ≡ (ok, some v)
  unfolding read peek_bytes
  frame_cycle = ground (arith, frame_number, value_of-bytes_of le w32 v small)

-- A receive that finds a well-formed frame which the application takes.
decode_frame_lem :
    (r : SiteRole) (receive_state : List ℕ → Bool → Bool) (v : ℕ) (valid : Bool) (st : List ℕ)
    → read le w32
        (record { memory = some r.rx_buf; capacity = r.cfg.frame_size; used = r.cfg.frame_size })
        2
      ≡ (ok, some v)
    → (get_or r.rx_buf (r.cfg.frame_size - 1) 0 == valid_marker) ≡ valid
    → take (r.cfg.frame_size - 7) (drop 6 r.rx_buf) ≡ st
    → receive_state st valid ≡ true
    → decode_frame r receive_state ≡ take_payload r r.rx_buf valid v
unfolding decode_frame
decode_frame_lem r receive_state v valid st numbered marked framed takes =
    ground (arith, ap (λ (b : List ℕ). receive_state b valid) framed)

-- A service that has heard a frame with these facts; all else is as it was.
abbrev pub Heard : SiteRole → List ℕ → Bool → Bool → ℕ → Bool → SiteRole → Type 0
Heard r bytes faulted single_mode cycle live r' = r' ≡ record r {
  rx_buf = bytes;
  peer_faulted = faulted;
  peer_single_mode = if single_mode then 1 else 0;
  peer_unresponsive = false;
  takeover_confirmed = false;
  peer_last_rx_cycle = r.cycle;
  peer_online_now = live && not faulted;
  peer_snapshot_cycle = if live then cycle else r.peer_snapshot_cycle;
  peer_snapshot_valid = if live then true else r.peer_snapshot_valid;
  standby_rx_cycle = if live then r.cycle else r.standby_rx_cycle;
}

flags :
    (r : SiteRole) (rest : List ℕ) (faulted single_mode live : Bool) (cycle : ℕ)
    → let bytes = (if faulted then 1 else 0) ∷ (if single_mode then 1 else 0) ∷ rest in
      let m : ℕ = if live then valid_marker else 0 in
      Heard r bytes faulted single_mode cycle live (
        take_payload
          (record r { rx_buf = bytes })
          bytes
          (m == valid_marker)
          (if live then cycle else 0))
unfolding take_payload
flags r rest true single_mode true cycle = refl
flags r rest true single_mode false cycle = refl
flags r rest false single_mode true cycle = refl
flags r rest false single_mode false cycle = refl

marker_live : (live : Bool) → ((if live then valid_marker else 0) == valid_marker) ≡ live
marker_live true = refl
marker_live false = refl

-- A frame that one site sends, received by another with the same frame size whose application takes the
-- state, tells it whether the sender is FAULTED, runs alone and is ONLINE, and of an ONLINE sender the
-- cycle; it voids what stood on the silence of the sender, and changes nothing else.
pub encode_frame-receive_frame :
    (s r : SiteRole) (encode_state : Bool → List ℕ) (receive_state : List ℕ → Bool → Bool)
    → r.cfg.frame_size ≡ s.cfg.frame_size
    → 7 < s.cfg.frame_size
    → s.cycle < 2 ^ 32
    → length r.rx_buf ≡ r.cfg.frame_size
    → receive_state (region s.cfg (encode_state s.online)) s.online ≡ true
    → let bytes =
        encode_frame s.cfg s.local_faulted s.local_single_mode s.cycle s.online encode_state in
      ((receive_frame r (ok, bytes) receive_state).0 ≡ ok)
      × Heard r bytes s.local_faulted s.local_single_mode s.cycle s.online
          (receive_frame r (ok, bytes) receive_state).1
unfolding encode_frame receive_frame
encode_frame-receive_frame s r encode_state receive_state same large small full takes =
    let st = region s.cfg (encode_state s.online) in
    let v : ℕ = if s.online then s.cycle else 0 in
    let m : ℕ = if s.online then valid_marker else 0 in
    let a : ℕ = if s.local_faulted then 1 else 0 in
    let b : ℕ = if s.local_single_mode then 1 else 0 in
    let n = r.cfg.frame_size in
    let size : 7 + length st ≡ n = omega (arith, length-region s.cfg (encode_state s.online)) in
    let small' : v < 2 ^ 32 = ground arith in
    let bytes = frame a b v m st n size small' in
    let r' = record r { rx_buf = bytes } in
    (
      refl,
      ap (λ (bs : List ℕ). decode_frame (record r { rx_buf = bs }) receive_state)
            (copy_to_full r.rx_buf bytes (length-frame a b v m st n size small' ∙ sym full))
          ∙ decode_frame_lem r' receive_state v (m == valid_marker) st
              (frame_cycle a b v m st n size small')
              (ap (λ (x : ℕ). x == valid_marker) (frame_marker a b v m st n size small'))
              (frame_state a b v m st n size small')
              (ap (receive_state st) (marker_live s.online) ∙ takes)
          ∙ flags r (bytes_of le w32 v ++ (st ++ m ∷ [])) s.local_faulted s.local_single_mode
              s.online s.cycle,
    )
