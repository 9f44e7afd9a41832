-- ===== src/Websocket/Session.antt =====
-- A session of backend/internal/wsserver/websocket.go: the handshake, and the first message behind it.
use nyc_taxi_real_time_eta_p.Common.{
  ℕ, ◌+◌, ◌-◌, ◌*◌, ◌/◌, ◌%◌, ◌<◌, ◌≡◌, ◌≢◌, refl, true, false, ◌&&◌, Option, none, some, leb, List,
  [], ◌∷◌, ◌++◌, arith, ◌==◌, if◌then◌else◌, All,
}
use nyc_taxi_real_time_eta_p.Common.Bytes.{Bytes, codes, bytes_eq_iff, bytes_eq-false}
use nyc_taxi_real_time_eta_p.Websocket.Frame.{Conn, Outcome, read_message, write}
use nyc_taxi_real_time_eta_p.Websocket.Handshake.{
  ws_magic_guid, letter, encode, compute_accept, handshake, hijacked, upgraded, answer, upgrade,
}
use nyc_taxi_real_time_eta_p.Websocket.Masking.{ClientFrame, client_frame, IsSendable}
use nyc_taxi_real_time_eta_p.Websocket.Messages.{
  Ends, IsPassedOver, stream, pongs, read_message-stream,
}

-- The value of a character of base64, none for any other character, by RFC 4648.
unfoldable pub value : ℕ → Option ℕ
value c =
    if leb 65 c && leb c 90
    then some (c - 65)
    else if leb 97 c && leb c 122
    then some (c - 71)
    else if leb 48 c && leb c 57
    then some (c + 4)
    else if c == 43
    then some 62
    else if c == 47
    then some 63
    else none

abbrev with_value : Option ℕ → (ℕ → Option Bytes) → Option Bytes
with_value none f = none
with_value (some v) f = f v

-- The last character that counts leaves no bits over.
unfoldable pub one_byte : ℕ → ℕ → Option Bytes
unfolding value
one_byte p q =
    with_value (value p)
      λ a. with_value (value q) λ b. if b % 16 == 0 then some ((a * 4 + b / 16) ∷ []) else none

unfoldable pub two_bytes : ℕ → ℕ → ℕ → Option Bytes
unfolding value
two_bytes p q r = with_value (value p) λ a. with_value (value q) λ b.
    with_value (value r)
      λ c. if c % 4 == 0 then some ((a * 4 + b / 16) ∷ (b % 16 * 16 + c / 4) ∷ []) else none

unfoldable pub three_more : ℕ → ℕ → ℕ → ℕ → Option Bytes → Option Bytes
unfolding value
three_more p q r s none = none
three_more p q r s (some more) = with_value (value p) λ a. with_value (value q) λ b.
    with_value (value r) λ c.
      with_value (value s)
        λ d. some ((a * 4 + b / 16) ∷ (b % 16 * 16 + c / 4) ∷ (c % 4 * 64 + d) ∷ more)

-- The bytes that a text in base64 stands for, by RFC 4648; none for a text that is not base64: a
-- length that is no multiple of four, another character, padding before the end, bits left over.
unfoldable pub decode : Bytes → Option Bytes
unfolding one_byte two_bytes three_more
decode [] = some []
decode (p ∷ []) = none
decode (p ∷ q ∷ []) = none
decode (p ∷ q ∷ r ∷ []) = none
decode (p ∷ q ∷ r ∷ s ∷ rest) =
    let more = decode rest in
    if s == 61
    then elim rest [ [] ↦ (if r == 61 then one_byte p q else two_bytes p q r) | c ∷ cs ↦ none ]
    else three_more p q r s more

value-letter : (n : ℕ) → n < 64 → (value (letter n) ≡ some n) × ((letter n == 61) ≡ false)
unfolding value letter
value-letter n h = ground arith

first_byte : (a b : ℕ) → b < 256 → a / 4 * 4 + (a % 4 * 16 + b / 16) / 16 ≡ a
first_byte a b h = omega (arith, h)

second_byte : (a b : ℕ) → b < 256 → (a % 4 * 16 + b / 16) % 16 * 16 + b % 16 * 4 / 4 ≡ b
second_byte a b h = omega (arith, h)

three_bytes :
    (a b c : ℕ)
    → a < 256
    → b < 256
    → c < 256
    → (a / 4 * 4 + (a % 4 * 16 + b / 16) / 16 ≡ a)
      × ((a % 4 * 16 + b / 16) % 16 * 16 + (b % 16 * 4 + c / 64) / 4 ≡ b)
      × ((b % 16 * 4 + c / 64) % 4 * 64 + c % 64 ≡ c)
three_bytes a b c ha hb hc = (omega (arith, hb), omega (arith, hb, hc), omega (arith, hc))

decode-encode : (b : Bytes) → All (λ x. x < 256) b → decode (encode b) ≡ some b
unfolding decode encode one_byte two_bytes three_more
decode-encode [] h = refl
decode-encode (a ∷ []) h =
    let (p, _) = value-letter (a / 4) (omega (arith, h.0)) in
    let (q, _) = value-letter (a % 4 * 16) (omega arith) in rw (p, q) (ground arith)
decode-encode (a ∷ b ∷ []) h =
    let (p, _) = value-letter (a / 4) (omega (arith, h.0)) in
    let (q, _) = value-letter (a % 4 * 16 + b / 16) (omega (arith, h.1.0)) in
    let (r, no_pad) = value-letter (b % 16 * 4) (omega arith) in
    let one = first_byte a b h.1.0 in
    let two = second_byte a b h.1.0 in
    let even : (b % 16 * 4 % 4 == 0) ≡ true = ground arith in
    rw (no_pad, p, q, r, even) (cc (one, two))
decode-encode (a ∷ b ∷ c ∷ rest) h =
    let (p, _) = value-letter (a / 4) (omega (arith, h.0)) in
    let (q, _) = value-letter (a % 4 * 16 + b / 16) (omega (arith, h.1.0)) in
    let (r, no_pad) = value-letter (b % 16 * 4 + c / 64) (omega (arith, h.1.1.0)) in
    let (s, no_pad') = value-letter (c % 64) (omega arith) in
    let (one, two, three) = three_bytes a b c h.0 h.1.0 h.1.1.0 in
    rw (no_pad', decode-encode rest h.1.1.1, p, q, r, s) (cc (one, two, three))

-- The response 101 with an accept value.
abbrev pub switching_protocols : Bytes → Bytes
switching_protocols accept =
    codes "HTTP/1.1 101 Switching Protocols"
    ++ (13
        ∷ 10
        ∷ (codes "Upgrade: websocket"
            ++ (13
                ∷ 10
                ∷ (codes "Connection: Upgrade"
                    ++ (13
                        ∷ 10
                        ∷ (codes "Sec-WebSocket-Accept: "
                            ++ (accept ++ (13 ∷ 10 ∷ 13 ∷ 10 ∷ []))))))))

-- A request of a WebSocket client, with a key and `Upgrade: websocket`, that sends frames right behind
-- it, on a connection whose writes succeed: `Upgrade` writes the 101 response with an accept value
-- that is base64, of the digest of the key and the magic GUID; the first `ReadMessage` then passes
-- over the frames that are neither text nor close, answers the pings among them, and returns the
-- payload of the text frame, or `io.EOF` of the close frame, behind them.
pub upgrade-session :
    (digest get : Bytes → Bytes) (fs : List ClientFrame) (f : ClientFrame) (r : Outcome Bytes)
    (rest : Bytes)
    → get (codes "Sec-WebSocket-Key") ≢ []
    → get (codes "Upgrade") ≡ codes "websocket"
    → All (λ x. x < 256) (digest (get (codes "Sec-WebSocket-Key") ++ ws_magic_guid))
    → All IsPassedOver fs
    → IsSendable f
    → Ends f r
    → (accept : Bytes) × (c : Conn) × (upgrade digest get (
          hijacked
            (record { input = stream fs ++ (client_frame f ++ rest); output = []; writes = [] }))
        ≡ upgraded c)
      × (decode accept
          ≡ some (
              digest
                (get (codes "Sec-WebSocket-Key") ++ codes "258EAFA5-E914-47DA-95CA-C5AB0DC85B11")))
      × (read_message c ≡ (
        record { input = rest; output = switching_protocols accept ++ pongs fs; writes = [] },
        r,
      ))
unfolding upgrade answer compute_accept write
upgrade-session digest get fs f r rest has_key asks bytes passed good ends =
    let key = get (codes "Sec-WebSocket-Key") in
    let accept = encode (digest (key ++ ws_magic_guid)) in
    let keyed = bytes_eq-false key [] has_key in
    let asked = (bytes_eq_iff (get (codes "Upgrade")) (codes "websocket")).1 asks in
    (
      accept,
      record {
        input = stream fs ++ (client_frame f ++ rest);
        output = handshake accept;
        writes = [];
      },
      rw (keyed, asked, upgrade) refl,
      decode-encode (digest (key ++ ws_magic_guid)) bytes,
      read_message-stream fs f r rest (handshake accept) passed good ends,
    )
