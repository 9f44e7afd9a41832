-- ===== src/Websocket/Messages.antt =====
-- `ReadMessage` of backend/internal/wsserver/websocket.go over whole streams of frames.
use Prim.Native.Nat.add
use nyc_taxi_real_time_eta_p.Common.{
  ℕ, suc, ◌+◌, ◌-◌, ◌≤◌, ◌<◌, ◌≡◌, ◌≢◌, ◌∙◌, ◌⊎◌, inl, inr, false, Bool, List, [], ◌∷◌, ◌++◌,
  append_assoc, append-nil, none, some, arith, ◌==◌, if◌then◌else◌, length, length-append, All,
  Bool-cases,
}
use nyc_taxi_real_time_eta_p.Common.Bytes.{Bytes}
use nyc_taxi_real_time_eta_p.Websocket.Frame.{
  Conn, Outcome, ok, err, eof, write_failed, frame_header, write_frame, handle_frame, read_loop,
  read_message, op_text, op_close, op_ping, op_pong,
}
use nyc_taxi_real_time_eta_p.Websocket.Masking.{
  ClientFrame, IsSendable, client_frame, read_frame-client_frame,
}
use nyc_taxi_real_time_eta_p.Websocket.Reading.{read_loop_more, read_loop_done}

-- The bytes of a row of frames, and the pongs that its pings ask for, in order.
unfoldable pub stream : List ClientFrame → Bytes
stream [] = []
stream (f ∷ fs) = client_frame f ++ stream fs

unfoldable pub pong : ClientFrame → Bytes
pong f = if f.opcode == op_ping then frame_header op_pong (length f.payload) ++ f.payload else []

unfoldable pub pongs : List ClientFrame → Bytes
pongs [] = []
pongs (f ∷ fs) = pong f ++ pongs fs

-- Pings, pongs, and the opcodes that the code does not know.
abbrev pub IsPassedOver : ClientFrame → Type 0
IsPassedOver f = IsSendable f × (f.opcode ≢ op_text) × (f.opcode ≢ op_close)

handle_passed_over :
    (f : ClientFrame) (input out : Bytes)
    → f.opcode ≢ op_text
    → f.opcode ≢ op_close
    → handle_frame f.opcode f.payload (record { input = input; output = out; writes = [] })
      ≡ (record { input = input; output = out ++ pong f; writes = [] }, none)
unfolding handle_frame write_frame pong
handle_passed_over f input out ht hc = elim (Bool-cases (f.opcode == op_ping)) [
  | inl e ↦ ground (arith, append_assoc out (frame_header op_pong (length f.payload)) f.payload)
  | inr e ↦ ground (arith, append-nil out)
]

read_loop_passed_over :
    (fs : List ClientFrame) (fuel : ℕ) (tail out : Bytes)
    → All IsPassedOver fs
    → read_loop (length fs + fuel) (record { input = stream fs ++ tail; output = out; writes = [] })
      ≡ read_loop fuel (record { input = tail; output = out ++ pongs fs; writes = [] })
unfolding stream pongs
read_loop_passed_over [] fuel tail out h = cc (add.zero fuel, append-nil out)
read_loop_passed_over (f ∷ fs) fuel tail out ((good, ht, hc), hs) =
    rw
      (
        append_assoc (client_frame f) (stream fs) tail,
        add.suc,
        ← append_assoc out (pong f) (pongs fs),
      )
      (read_loop_more (length fs + fuel) _ f.opcode f.payload (stream fs ++ tail) _
          (read_frame-client_frame f (stream fs ++ tail) good)
          (handle_passed_over f (stream fs ++ tail) out ht hc)
        ∙ read_loop_passed_over fs fuel tail (out ++ pong f) hs)

client_frame-ne-nil : (f : ClientFrame) → 0 < length (client_frame f)
unfolding client_frame
client_frame-ne-nil f = omega arith

length-stream : (fs : List ClientFrame) → length fs ≤ length (stream fs)
unfolding stream
length-stream [] = omega arith
length-stream (f ∷ fs) =
    omega
      (arith, length-append (client_frame f) (stream fs), client_frame-ne-nil f, length-stream fs)

-- What `ReadMessage` returns on the frame that ends it.
abbrev pub Ends : ClientFrame → Outcome Bytes → Type 0
Ends f r = ((f.opcode ≡ op_text) × (r ≡ ok f.payload)) ⊎ ((f.opcode ≡ op_close) × (r ≡ err eof))

handle-Ends :
    (f : ClientFrame) (c : Conn) (r : Outcome Bytes)
    → Ends f r
    → handle_frame f.opcode f.payload c ≡ (c, some r)
unfolding handle_frame
handle-Ends f c r h = ground arith

-- On a connection whose writes succeed, `ReadMessage` passes over the frames that are neither text
-- nor close, writes a pong for each ping among them in their order and nothing else, and returns
-- at the next frame, the payload of a text frame or `io.EOF` of a close frame, with the input
-- after it unread.
pub read_message-stream :
    (fs : List ClientFrame) (f : ClientFrame) (r : Outcome Bytes) (rest out : Bytes)
    → All IsPassedOver fs
    → IsSendable f
    → Ends f r
    → read_message
        (record { input = stream fs ++ (client_frame f ++ rest); output = out; writes = [] })
      ≡ (record { input = rest; output = out ++ pongs fs; writes = [] }, r)
unfolding read_message
read_message-stream fs f r rest out hs good ends =
    let tail = client_frame f ++ rest in
    let spare = length (stream fs ++ tail) - length fs in
    let enough : suc (length (stream fs ++ tail)) ≡ length fs + suc spare =
      omega (arith, length-stream fs, length-append (stream fs) tail) in
    rw enough (
      read_loop_passed_over fs (suc spare) tail out hs
      ∙ read_loop_done spare _ f.opcode f.payload rest _ r (read_frame-client_frame f rest good)
          (handle-Ends f _ r ends))

-- A ping whose pong cannot be written ends `ReadMessage` with the error of the write.
pub read_message_pong_fails :
    (f : ClientFrame) (rest out : Bytes) (later : List Bool)
    → IsSendable f
    → f.opcode ≡ op_ping
    → read_message (record { input = client_frame f ++ rest; output = out; writes = false ∷ later })
      ≡ (record { input = rest; output = out; writes = later }, err write_failed)
unfolding read_message handle_frame write_frame
read_message_pong_fails f rest out later good e =
    read_loop_done _ _ f.opcode f.payload rest _ (err write_failed)
      (read_frame-client_frame f rest good) (ground arith)
