-- ===== src/Websocket/Frame.antt =====
-- `writeFrame`, `readFrame` and `ReadMessage` of backend/internal/wsserver/websocket.go.
use Prim.Native.Nat.{bit_and, bit_or, bit_xor}
use nyc_taxi_real_time_eta_p.Common.{
  ℕ, zero, suc, ◌+◌, ◌*◌, ◌/◌, ◌%◌, ◌^◌, Bool, true, false, List, [], ◌∷◌, ◌++◌, Option, none, some,
  ltb, leb, ◌==◌, if◌then◌else◌, length, take, drop, get_elem?,
}
use nyc_taxi_real_time_eta_p.Common.Bytes.{Bytes}

abbrev pub op_text : ℕ
op_text = 0x1

abbrev pub op_close : ℕ
op_close = 0x8

abbrev pub op_ping : ℕ
op_ping = 0x9

abbrev pub op_pong : ℕ
op_pong = 0xA

-- `eof` and `unexpected_eof` are those of package io, `write_failed` is the error of a `Write`.
pub data Error : Type 0 where
  eof unexpected_eof write_failed : Error

-- `panics` is a run-time panic, `stuck` no Go value: the loop of `read_message` has no fuel left.
pub data Outcome {ℓ} (A : Type ℓ) : Type ℓ where
  ok : A → Outcome A
  err : Error → Outcome A
  panics stuck : Outcome A

infixl 5 ◌>>=◌
abbrev pub ◌>>=◌ {ℓ κ} : {A : Type ℓ} {B : Type κ} → Outcome A → (A → Outcome B) → Outcome B
ok a >>= f = f a
err e >>= f = err e
panics >>= f = panics
stuck >>= f = stuck

-- `io.ReadFull` into a buffer of `n` bytes: the bytes and what is left of the stream.
unfoldable pub read_full : ℕ → Bytes → Outcome (Bytes × Bytes)
read_full n input =
    if leb n (length input)
    then ok (take n input, drop n input)
    else if length input == 0
    then err eof
    else err unexpected_eof

-- The number that big-endian bytes stand for.
unfoldable pub big_endian : ℕ → Bytes → ℕ
big_endian acc [] = acc
big_endian acc (b ∷ bs) = big_endian (acc * 256 + b) bs

unfoldable pub put_uint16 : ℕ → Bytes
put_uint16 n = n / 256 % 256 ∷ n % 256 ∷ []

unfoldable pub put_uint64 : ℕ → Bytes
put_uint64 n =
    n / 2 ^ 56 % 256
    ∷ n / 2 ^ 48 % 256
    ∷ n / 2 ^ 40 % 256
    ∷ n / 2 ^ 32 % 256
    ∷ n / 2 ^ 24 % 256
    ∷ n / 2 ^ 16 % 256
    ∷ n / 2 ^ 8 % 256
    ∷ n % 256
    ∷ []

-- The header that `writeFrame` builds.
unfoldable pub frame_header : ℕ → ℕ → Bytes
unfolding put_uint16 put_uint64
frame_header opcode n =
    let first_byte = bit_or 0x80 opcode in
    if leb n 125
    then first_byte ∷ n % 256 ∷ []
    else if leb n 65535
    then first_byte ∷ 126 ∷ put_uint16 (n % 65536)
    else first_byte ∷ 127 ∷ put_uint64 n

-- The extended length: `length` is the low seven bits of the second byte.
unfoldable pub read_length : ℕ → Bytes → Outcome (ℕ × Bytes)
unfolding read_full big_endian
read_length len input =
    if len == 126
    then (do (ext, rest) ← read_full 2 input; ok (big_endian 0 ext, rest))
    else if len == 127
    then (do (ext, rest) ← read_full 8 input; ok (big_endian 0 ext, rest))
    else ok (len, input)

unfoldable pub read_mask : Bool → Bytes → Outcome (Bytes × Bytes)
unfolding read_full
read_mask masked input = if masked then read_full 4 input else ok (0 ∷ 0 ∷ 0 ∷ 0 ∷ [], input)

abbrev or_zero : Option ℕ → ℕ
or_zero none = 0
or_zero (some k) = k

-- `for i := range payload { payload[i] ^= maskKey[i%4] }`, from index `i` on.
unfoldable pub unmask : Bytes → ℕ → Bytes → Bytes
unmask key i [] = []
unmask key i (b ∷ bs) = bit_xor b (or_zero (get_elem? key (i % 4))) ∷ unmask key (i + 1) bs

-- `make([]byte, length)` and the read into it. `length` is an int64, negative from 2 ^ 63 on, and
-- `make` panics on a negative length. A length from 0 on is taken to fit the memory: else `make` panics or
-- the process ends.
unfoldable pub read_payload : ℕ → Bytes → Outcome (Bytes × Bytes)
unfolding read_full
read_payload len input = if ltb len (2 ^ 63) then read_full len input else panics

-- The opcode, the payload, and the input after the frame.
unfoldable pub read_frame : Bytes → Outcome (ℕ × Bytes × Bytes)
read_frame input = do
  (head, rest) ← read_full 2 input
  let first = or_zero (get_elem? head 0)
  let second = or_zero (get_elem? head 1)
  let masked = if bit_and second 0x80 == 0 then false else true
  (len, rest) ← read_length (bit_and second 0x7f) rest
  (key, rest) ← read_mask masked rest
  (payload, rest) ← read_payload len rest
  ok (bit_and first 0x0f, (if masked then unmask key 0 payload else payload), rest)

pub record Conn : Type 0 where
  pub input : Bytes
  pub output : Bytes
  -- Whether each coming `Write` succeeds; past the end of the list they all do.
  pub writes : List Bool

-- One `c.rw.Write(b)`, with the outcomes that are to come as its last argument.
unfoldable pub write_with : Bytes → Conn → List Bool → Conn × Option Error
write_with b c [] = (record c { output = c.output ++ b }, none)
write_with b c (true ∷ later) = (record c { output = c.output ++ b; writes = later }, none)
write_with b c (false ∷ later) = (record c { writes = later }, some write_failed)

unfoldable pub write : Bytes → Conn → Conn × Option Error
unfolding write_with
write b c = write_with b c c.writes

unfoldable pub write_frame : ℕ → Bytes → Conn → Conn × Option Error
unfolding write frame_header
write_frame opcode payload c =
    let (c', failed) = write (frame_header opcode (length payload)) c in
    elim failed [ some e ↦ (c', some e) | none ↦ write payload c' ]

unfoldable pub write_message : Bytes → Conn → Conn × Option Error
unfolding write_frame
write_message payload c = write_frame op_text payload c

-- One round of the loop of `ReadMessage`, on a frame that was read: the message or the error it
-- returns with, or `none` where the loop goes on.
unfoldable pub handle_frame : ℕ → Bytes → Conn → Conn × Option (Outcome Bytes)
handle_frame opcode payload c =
    if opcode == op_text
    then (c, some (ok payload))
    else if opcode == op_close
    then (c, some (err eof))
    else if opcode == op_ping
    then (let (c', failed) = write_frame op_pong payload c in
        (c', elim failed [ some e ↦ some (err e) | none ↦ none ]))
    else (c, none)

-- The frame loop with fuel: every frame takes two bytes at least.
unfoldable pub read_loop : ℕ → Conn → Conn × Outcome Bytes
read_loop zero c = (c, stuck)
read_loop (suc fuel) c = elim (read_frame c.input) [
  | ok (opcode, payload, rest) ↦
      let (c', done) = handle_frame opcode payload (record c { input = rest }) in
      elim done [ some r ↦ (c', r) | none ↦ read_loop fuel c' ]
  | err e ↦ (c, err e)
  | panics ↦ (c, panics)
  | stuck ↦ (c, stuck)
]

unfoldable pub read_message : Conn → Conn × Outcome Bytes
unfolding read_loop
read_message c = read_loop (suc (length c.input)) c
