-- ===== src/Websocket/Handshake.antt =====
-- `Upgrade`, `computeAccept` and `Close` of backend/internal/wsserver/websocket.go. net/http and SHA-1 are
-- parameters.
use nyc_taxi_real_time_eta_p.Common.{
  ℕ, ◌+◌, ◌-◌, ◌*◌, ◌/◌, ◌%◌, ◌||◌, not, [], ◌∷◌, ◌++◌, none, some, ltb, ◌==◌, if◌then◌else◌,
}
use nyc_taxi_real_time_eta_p.Common.Bytes.{Bytes, codes, concat, bytes_eq}
use nyc_taxi_real_time_eta_p.Websocket.Frame.{Conn, op_close, write, write_frame}

abbrev pub ws_magic_guid : Bytes
ws_magic_guid = codes "258EAFA5-E914-47DA-95CA-C5AB0DC85B11"

-- One of the 64 letters of `base64.StdEncoding`.
unfoldable pub letter : ℕ → ℕ
letter n =
    if ltb n 26
    then 65 + n
    else if ltb n 52
    then 71 + n
    else if ltb n 62
    then n - 4
    else if n == 62
    then 43
    else 47

-- `EncodeToString`.
unfoldable pub encode : Bytes → Bytes
unfolding letter
encode [] = []
encode (a ∷ []) = letter (a / 4) ∷ letter (a % 4 * 16) ∷ 61 ∷ 61 ∷ []
encode (a ∷ b ∷ []) = letter (a / 4) ∷ letter (a % 4 * 16 + b / 16) ∷ letter (b % 16 * 4) ∷ 61 ∷ []
encode (a ∷ b ∷ c ∷ rest) =
    letter (a / 4)
    ∷ letter (a % 4 * 16 + b / 16)
    ∷ letter (b % 16 * 4 + c / 64)
    ∷ letter (c % 64)
    ∷ encode rest

module _ (digest : Bytes → Bytes) where
  unfoldable pub compute_accept : Bytes → Bytes
  unfolding encode
  compute_accept key = encode (digest (key ++ ws_magic_guid))

abbrev pub line_end : Bytes
line_end = 13 ∷ 10 ∷ []

-- The response of `Upgrade`.
unfoldable pub handshake : Bytes → Bytes
handshake accept = concat (
    codes "HTTP/1.1 101 Switching Protocols"
    ∷ line_end
    ∷ codes "Upgrade: websocket"
    ∷ line_end
    ∷ codes "Connection: Upgrade"
    ∷ line_end
    ∷ codes "Sec-WebSocket-Accept: "
    ∷ accept
    ∷ line_end
    ∷ line_end
    ∷ [])

-- What `Hijack` comes to: the response writer has none, it fails, or it gives the connection, with
-- the bytes that are buffered in front of those to come.
pub data Hijacking : Type 0 where
  unsupported hijack_failed : Hijacking
  hijacked : Conn → Hijacking

-- What `Upgrade` comes to. Where the response cannot be written the connection is closed.
pub data Upgraded : Type 0 where
  upgraded : Conn → Upgraded
  not_websocket no_hijacker not_hijacked : Upgraded
  closed : Conn → Upgraded

module _ (digest : Bytes → Bytes) where
  -- The end of `Upgrade`, on the connection that is taken over.
  unfoldable pub answer : Bytes → Conn → Upgraded
  unfolding compute_accept handshake write
  answer key c =
      let (c', failed) = write (handshake (compute_accept digest key)) c in
      elim failed [ none ↦ upgraded c' | some e ↦ closed c' ]

  -- `get` is `r.Header.Get`, empty where a header is not set.
  unfoldable pub upgrade : (Bytes → Bytes) → Hijacking → Upgraded
  unfolding answer
  upgrade get h =
      if bytes_eq (get (codes "Sec-WebSocket-Key")) []
        || not (bytes_eq (get (codes "Upgrade")) (codes "websocket"))
      then not_websocket
      else elim h [
        | unsupported ↦ no_hijacker
        | hijack_failed ↦ not_hijacked
        | hijacked c ↦ answer (get (codes "Sec-WebSocket-Key")) c
      ]

-- `Close` in front of the close of the TCP connection.
unfoldable pub close : Conn → Conn
unfolding write_frame
close c = (write_frame op_close [] c).0
