-- ===== src/Websocket/Masking.antt =====
-- Masked frames, as clients send them, and what `readFrame` of
-- backend/internal/wsserver/websocket.go makes of them. The encoder of this file is RFC 6455 5.2
-- and 5.3, from the client's side; it is no code of the repository.
use Prim.Native.Nat.{bit_xor}
use nyc_taxi_real_time_eta_p.Common.{
  ℕ, ◌+◌, ◌%◌, ◌^◌, ◌≤◌, ◌<◌, ◌≡◌, refl, ◌∙◌, [], ◌∷◌, ◌++◌, append_assoc, arith, leb,
  if◌then◌else◌, length, All, Bool-cases, inl, inr,
}
use nyc_taxi_real_time_eta_p.Common.Bytes.{Bytes}
use nyc_taxi_real_time_eta_p.Common.Bits.{xor_twice}
use nyc_taxi_real_time_eta_p.Websocket.Frame.{
  ok, panics, read_length, read_payload, read_frame, big_endian, put_uint16, put_uint64, unmask,
}
use nyc_taxi_real_time_eta_p.Websocket.Header.{
  read_full-append, read_payload-append, read_length_short, read_length_16, read_length_64,
  read_frame_masked, read_frame_unmasked,
}

abbrev pub IsByte : ℕ → Type 0
IsByte b = b < 256

pub record Key : Type 0 where
  pub k0 : ℕ
  pub k1 : ℕ
  pub k2 : ℕ
  pub k3 : ℕ

abbrev pub key_bytes : Key → Bytes
key_bytes k = k.k0 ∷ k.k1 ∷ k.k2 ∷ k.k3 ∷ []

abbrev pub IsKey : Key → Type 0
IsKey k = IsByte k.k0 × IsByte k.k1 × IsByte k.k2 × IsByte k.k3

-- The octets of a payload, each combined with the next octet of the key, which goes round.
unfoldable pub mask : ℕ → ℕ → ℕ → ℕ → Bytes → Bytes
mask a b c d [] = []
mask a b c d (x ∷ xs) = bit_xor x a ∷ mask b c d a xs

length-mask : (a b c d : ℕ) (p : Bytes) → length (mask a b c d p) ≡ length p
unfolding mask
length-mask a b c d [] = refl
length-mask a b c d (x ∷ xs) = omega (arith, length-mask b c d a xs)

module _ (k : Key) (good : IsKey k) where
  -- The loop of `readFrame` undoes the mask, from any index on.
  unmask-mask :
      (i : ℕ) (p : Bytes)
      → All IsByte p
      → (i % 4 ≡ 0 → unmask (key_bytes k) i (mask k.k0 k.k1 k.k2 k.k3 p) ≡ p)
        × (i % 4 ≡ 1 → unmask (key_bytes k) i (mask k.k1 k.k2 k.k3 k.k0 p) ≡ p)
        × (i % 4 ≡ 2 → unmask (key_bytes k) i (mask k.k2 k.k3 k.k0 k.k1 p) ≡ p)
        × (i % 4 ≡ 3 → unmask (key_bytes k) i (mask k.k3 k.k0 k.k1 k.k2 p) ≡ p)
  unfolding unmask mask
  unmask-mask i [] h = (λ _. refl, λ _. refl, λ _. refl, λ _. refl)
  unmask-mask i (x ∷ xs) (hx, hs) =
      let ih = unmask-mask (i + 1) xs hs in
      (
        λ e. rw e (cc (xor_twice x k.k0 hx good.0, ih.1 (omega arith))),
        λ e. rw e (cc (xor_twice x k.k1 hx good.1, ih.2 (omega arith))),
        λ e. rw e (cc (xor_twice x k.k2 hx good.2, ih.3 (omega arith))),
        λ e. rw e (cc (xor_twice x k.k3 hx good.3, ih.0 (omega arith))),
      )

-- The length field of a client's frame, with the mask bit set.
unfoldable pub client_length : ℕ → Bytes
client_length n =
    if leb n 125
    then (128 + n) ∷ []
    else if leb n 65535
    then (128 + 126) ∷ put_uint16 n
    else (128 + 127) ∷ put_uint64 n

pub record ClientFrame : Type 0 where
  pub opcode : ℕ
  pub key : Key
  pub payload : Bytes

abbrev pub IsSendable : ClientFrame → Type 0
IsSendable f = (f.opcode < 16) × IsKey f.key × All IsByte f.payload × (length f.payload < 2 ^ 63)

unfoldable pub client_frame : ClientFrame → Bytes
client_frame f =
    (128 + f.opcode)
    ∷ (client_length (length f.payload)
        ++ (key_bytes f.key ++ mask f.key.k0 f.key.k1 f.key.k2 f.key.k3 f.payload))

client_length_cases :
    (n : ℕ) (s : Bytes)
    → n < 2 ^ 63
    → (m : ℕ) × (t : Bytes) × (m < 128)
      × (client_length n ++ s ≡ (128 + m) ∷ t)
      × (read_length m t ≡ ok (n, s))
unfolding client_length
client_length_cases n s h = elim (Bool-cases (leb n 125)) [
  | inl e ↦ (n, s, ground arith, rw e, read_length_short n s (ground arith))
  | inr e ↦ elim (Bool-cases (leb n 65535)) [
    | inl e' ↦ (126, put_uint16 n ++ s, omega arith, rw (e, e'), read_length_16 n s (ground arith))
    | inr e' ↦ (127, put_uint64 n ++ s, omega arith, rw (e, e'), read_length_64 n s (omega arith))
  ]
]

-- `readFrame` reads from any stream the masked frame that a client put there: its opcode, its
-- payload with the mask taken off, and the rest of the stream. The frame has an opcode below 16, a
-- key and a payload of bytes, and fewer than 2 ^ 63 of them.
pub read_frame-client_frame :
    (f : ClientFrame) (rest : Bytes)
    → IsSendable f
    → read_frame (client_frame f ++ rest) ≡ ok (f.opcode, f.payload, rest)
unfolding client_frame
read_frame-client_frame f rest (ho, hk, hb, hl) =
    let masked = mask f.key.k0 f.key.k1 f.key.k2 f.key.k3 f.payload in
    let same : length masked ≡ length f.payload = length-mask _ _ _ _ f.payload in
    let (m, t, hm, shape, got) =
      client_length_cases (length f.payload) (key_bytes f.key ++ (masked ++ rest)) hl in
    let whole : read_payload (length f.payload) (masked ++ rest) ≡ ok (masked, rest) =
      rw same at (read_payload-append masked rest (omega arith)) in
    let body =
      read_frame_masked (128 + f.opcode) m (length f.payload) t (key_bytes f.key) (masked ++ rest)
        (omega arith) hm refl got whole in
    let plain : unmask (key_bytes f.key) 0 masked ≡ f.payload =
      (unmask-mask f.key hk 0 f.payload hb).0 refl in
    let same_opcode : (128 + f.opcode) % 16 ≡ f.opcode = omega arith in
    rw (append_assoc, append_assoc, shape) (body ∙ cc (plain, same_opcode))

read_payload_panics : (len : ℕ) (s : Bytes) → 2 ^ 63 ≤ len → read_payload len s ≡ panics
unfolding read_payload
read_payload_panics len s h = ground arith

-- A frame that announces 2 ^ 63 bytes or more stops `readFrame` by a panic, masked or not, as soon
-- as its header (eight length bytes and the mask key, where there is one) is there: `make` is
-- called with a negative length.
pub read_frame_panics :
    (first : ℕ) (ext key rest : Bytes)
    → first < 256
    → length ext ≡ 8
    → length key ≡ 4
    → 2 ^ 63 ≤ big_endian 0 ext
    → (read_frame (first ∷ 127 ∷ (ext ++ rest)) ≡ panics)
      × (read_frame (first ∷ 255 ∷ (ext ++ (key ++ rest))) ≡ panics)
unfolding read_length
read_frame_panics first ext key rest hf he hk big = (
  read_frame_unmasked first 127 (big_endian 0 ext) _ rest hf (omega arith) (announced rest)
      (too_long rest),
  read_frame_masked first 127 (big_endian 0 ext) _ key rest hf (omega arith) hk
      (announced (key ++ rest)) (too_long rest),
)
  where
    announced : (s : Bytes) → read_length 127 (ext ++ s) ≡ ok (big_endian 0 ext, s)
    announced s = rw (rw he at (read_full-append ext s))

    too_long : (s : Bytes) → read_payload (big_endian 0 ext) s ≡ panics
    too_long s = read_payload_panics (big_endian 0 ext) s big
