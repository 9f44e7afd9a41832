-- ===== src/Websocket/Header.antt =====
-- What `writeFrame` of backend/internal/wsserver/websocket.go puts before a payload, and that
-- `readFrame` reads it back.
use Prim.Native.Nat.{bit_and}
use nyc_taxi_real_time_eta_p.Common.{
  ℕ, ◌+◌, ◌*◌, ◌/◌, ◌%◌, ◌^◌, ◌≤◌, ◌<◌, ◌≡◌, ap, ◌⊎◌, inl, inr, [], ◌∷◌, ◌++◌, ◌∙◌, arith, lt→ltb,
  length, take-append, drop-append, length-append,
}
use nyc_taxi_real_time_eta_p.Common.Bytes.{Bytes}
use nyc_taxi_real_time_eta_p.Common.Bits.{low_four, low_seven, top_bit, set_top}
use nyc_taxi_real_time_eta_p.Websocket.Frame.{
  Outcome, ok, ◌>>=◌, read_full, read_length, read_mask, read_payload, read_frame, big_endian,
  put_uint16, put_uint64, frame_header, unmask,
}

pub read_full-append : (xs ys : Bytes) → read_full (length xs) (xs ++ ys) ≡ ok (xs, ys)
unfolding read_full
read_full-append xs ys = ground (arith, length-append xs ys, take-append xs ys, drop-append xs ys)

pub read_payload-append :
    (xs ys : Bytes) → length xs < 2 ^ 63 → read_payload (length xs) (xs ++ ys) ≡ ok (xs, ys)
unfolding read_payload
read_payload-append xs ys h = rw (lt→ltb _ _ h) (read_full-append xs ys)

pub read_length_short : (n : ℕ) (s : Bytes) → n ≤ 125 → read_length n s ≡ ok (n, s)
unfolding read_length
read_length_short n s h = ground arith

pub read_length_16 :
    (n : ℕ) (s : Bytes) → n < 65536 → read_length 126 (put_uint16 n ++ s) ≡ ok (n, s)
unfolding read_length put_uint16 big_endian
read_length_16 n s h = rw (read_full-append (put_uint16 n) s) (ap (λ k. ok (k, s)) (omega arith))

digits_64 :
    (n : ℕ)
    → n < 2 ^ 64
    → ((((((((0 + n / 2 ^ 56 % 256) * 256 + n / 2 ^ 48 % 256) * 256 + n / 2 ^ 40 % 256) * 256
                        + n / 2 ^ 32 % 256)
                      * 256
                    + n / 2 ^ 24 % 256)
                  * 256
                + n / 2 ^ 16 % 256)
              * 256
            + n / 2 ^ 8 % 256)
          * 256
        + n % 256)
      ≡ n
digits_64 n h = omega arith

pub read_length_64 :
    (n : ℕ) (s : Bytes) → n < 2 ^ 64 → read_length 127 (put_uint64 n ++ s) ≡ ok (n, s)
unfolding read_length put_uint64 big_endian
read_length_64 n s h = rw (read_full-append (put_uint64 n) s) (ap (λ k. ok (k, s)) (digits_64 n h))

-- The two header bytes decide how the rest is read.
pub read_frame_unmasked :
    (first second len : ℕ) (s t : Bytes) {o : Outcome (Bytes × Bytes)}
    → first < 256
    → second < 128
    → read_length second s ≡ ok (len, t)
    → read_payload len t ≡ o
    → read_frame (first ∷ second ∷ s) ≡ (o >>= λ x. ok (first % 16, x.0, x.1))
unfolding read_frame read_mask
read_frame_unmasked first second len s t {o} hf hs hl hp =
    let clear : bit_and second 0x80 ≡ 0 = omega (arith, top_bit second) in
    let low : bit_and second 0x7f ≡ second = omega (arith, low_seven second) in
    rw (read_full-append (first ∷ second ∷ []) s, clear, low, hl)
      (rw hp (ap (λ k. o >>= λ x. ok (k, x.0, x.1)) (low_four first hf)))

pub read_frame_masked :
    (first m len : ℕ) (s key u : Bytes) {o : Outcome (Bytes × Bytes)}
    → first < 256
    → m < 128
    → length key ≡ 4
    → read_length m s ≡ ok (len, key ++ u)
    → read_payload len u ≡ o
    → read_frame (first ∷ (128 + m) ∷ s) ≡ (o >>= λ x. ok (first % 16, unmask key 0 x.0, x.1))
unfolding read_frame read_mask
read_frame_masked first m len s key u {o} hf hm hk hl hp =
    let marked : bit_and (128 + m) 0x80 ≡ 128 = omega (arith, top_bit (128 + m)) in
    let low : bit_and (128 + m) 0x7f ≡ m = omega (arith, low_seven (128 + m)) in
    let keyed : read_full 4 (key ++ u) ≡ ok (key, u) = rw hk at (read_full-append key u) in
    rw (read_full-append (first ∷ (128 + m) ∷ []) s, marked, low, hl)
      (rw (keyed, hp) (ap (λ k. o >>= λ x. ok (k, unmask key 0 x.0, x.1)) (low_four first hf)))

-- The three shapes of the header, by the size of the payload.
pub header_cases :
    (opcode n : ℕ)
    → opcode < 16
    → ((n ≤ 125) × (frame_header opcode n ≡ (128 + opcode) ∷ n ∷ []))
      ⊎ (((125 < n) × (n < 65536) × (frame_header opcode n ≡ (128 + opcode) ∷ 126 ∷ put_uint16 n))
          ⊎ ((65535 < n) × (frame_header opcode n ≡ (128 + opcode) ∷ 127 ∷ put_uint64 n)))
unfolding frame_header
header_cases opcode n h = ground (arith, set_top opcode)

-- `readFrame` reads back, from any position of a stream, the frame that `writeFrame` writes: the
-- opcode (below 16), the payload (shorter than 2 ^ 63 bytes), and the stream after the frame.
pub read_frame-frame_header :
    (opcode : ℕ) (payload rest : Bytes)
    → opcode < 16
    → length payload < 2 ^ 63
    → read_frame (frame_header opcode (length payload) ++ (payload ++ rest))
      ≡ ok (opcode, payload, rest)
read_frame-frame_header opcode payload rest ho hp = elim (header_cases opcode (length payload) ho) [
  | inl (small, shape) ↦ rw shape (
      frame (length payload) (length payload) (payload ++ rest) (omega arith)
        (read_length_short _ _ small))
  | inr (inl (low, high, shape)) ↦
      rw shape (frame 126 (length payload) _ (omega arith) (read_length_16 _ _ high))
  | inr (inr (low, shape)) ↦
      rw shape (frame 127 (length payload) _ (omega arith) (read_length_64 _ _ (omega arith)))
]
  where
    frame :
        (second len : ℕ) (s : Bytes)
        → second < 128
        → read_length second s ≡ ok (length payload, payload ++ rest)
        → read_frame ((128 + opcode) ∷ second ∷ s) ≡ ok (opcode, payload, rest)
    frame second len s hs hl =
        read_frame_unmasked (128 + opcode) second (length payload) s _ (omega arith) hs hl
          (read_payload-append payload rest hp)
        ∙ ap (λ o. ok (o, payload, rest)) (omega arith)
