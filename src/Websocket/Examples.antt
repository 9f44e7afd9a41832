-- ===== src/Websocket/Examples.antt =====
-- The codec of backend/internal/wsserver/websocket.go at concrete bytes.
use nyc_taxi_real_time_eta_p.Common.{
  ◌≡◌, ◌≢◌, refl, some, [], if◌then◌else◌, ◌∷◌, ◌++◌, arith, inl, replicate,
}
use nyc_taxi_real_time_eta_p.Common.Bytes.{Bytes, codes, bytes_eq}
use nyc_taxi_real_time_eta_p.Websocket.Frame.{
  Conn, ok, err, panics, stuck, write_failed, frame_header, read_frame, read_message, write_message,
  op_text, op_ping, op_pong,
}
use nyc_taxi_real_time_eta_p.Websocket.Handshake.{
  encode, compute_accept, hijacked, upgraded, upgrade,
}
use nyc_taxi_real_time_eta_p.Websocket.Session.{decode, switching_protocols, upgrade-session}
use nyc_taxi_real_time_eta_p.Websocket.Header.{read_frame-frame_header}
use nyc_taxi_real_time_eta_p.Websocket.Masking.{
  Key, ClientFrame, client_frame, read_frame-client_frame, read_frame_panics,
}
use nyc_taxi_real_time_eta_p.Websocket.Reading.{read_message-ne-stuck}
use nyc_taxi_real_time_eta_p.Websocket.Messages.{stream, pongs, read_message-stream}

-- RFC 6455, section 5.7: the text "Hello", unmasked and masked.
abbrev hello : ClientFrame
hello = record {
  opcode = op_text;
  key = record { k0 = 0x37; k1 = 0xfa; k2 = 0x21; k3 = 0x3d };
  payload = codes "Hello";
}

abbrev ping : ClientFrame
ping = record hello { opcode = op_ping }

hello_masked :
    client_frame hello
    ≡ 0x81 ∷ 0x85 ∷ 0x37 ∷ 0xfa ∷ 0x21 ∷ 0x3d ∷ 0x7f ∷ 0x9f ∷ 0x4d ∷ 0x51 ∷ 0x58 ∷ []
unfolding client_frame nyc_taxi_real_time_eta_p.Websocket.Masking.client_length
    nyc_taxi_real_time_eta_p.Websocket.Masking.mask
hello_masked = refl

hello_written :
    (write_message (codes "Hello") (record { input = []; output = []; writes = [] })).0.output
    ≡ 0x81 ∷ 0x05 ∷ codes "Hello"
unfolding write_message
hello_written = refl

read_frame-frame_header_example :
    read_frame (frame_header op_text 5 ++ (codes "Hello" ++ (1 ∷ [])))
    ≡ ok (op_text, codes "Hello", 1 ∷ [])
read_frame-frame_header_example =
    read_frame-frame_header op_text (codes "Hello") (1 ∷ []) (omega arith) (omega arith)

read_frame-client_frame_example :
    read_frame (client_frame hello ++ (1 ∷ [])) ≡ ok (op_text, codes "Hello", 1 ∷ [])
read_frame-client_frame_example = read_frame-client_frame hello (1 ∷ []) (omega arith)

read_frame_panics_example : read_frame (0x81 ∷ 127 ∷ (replicate 8 128 ++ [])) ≡ panics
read_frame_panics_example =
    (read_frame_panics 0x81 (replicate 8 128) (replicate 4 0) [] (omega arith) refl refl
      (unfold nyc_taxi_real_time_eta_p.Websocket.Frame.big_endian in omega arith)).0

read_message-ne-stuck_example :
    (read_message (record { input = client_frame ping; output = []; writes = [] })).1 ≢ stuck
read_message-ne-stuck_example =
    read_message-ne-stuck (record { input = client_frame ping; output = []; writes = [] })

read_message-stream_example :
    read_message (record {
      input = stream (ping ∷ []) ++ (client_frame hello ++ (7 ∷ []));
      output = [];
      writes = [];
    })
    ≡ (record { input = 7 ∷ []; output = [] ++ pongs (ping ∷ []); writes = [] }, ok (codes "Hello"))
read_message-stream_example =
    read_message-stream (ping ∷ []) hello (ok (codes "Hello")) (7 ∷ []) []
      (((omega arith), (λ e. omega arith), (λ e. omega arith)), tt) (omega arith) (inl (refl, refl))

-- The example of RFC 6455: the digest of its key and the magic GUID.
abbrev sample_digest : Bytes
sample_digest =
    179 ∷ 122 ∷ 79 ∷ 44 ∷ 192 ∷ 98 ∷ 79 ∷ 22 ∷ 144 ∷ 246 ∷ 70 ∷ 6 ∷ 207 ∷ 56 ∷ 89 ∷ 69 ∷ 178 ∷ 190
    ∷ 196 ∷ 234 ∷ []

abbrev sample_headers : Bytes → Bytes
sample_headers name =
    if bytes_eq name (codes "Sec-WebSocket-Key")
    then codes "dGhlIHNhbXBsZSBub25jZQ=="
    else if bytes_eq name (codes "Upgrade")
    then codes "websocket"
    else []

sample_accept :
    compute_accept (λ s. sample_digest) (codes "dGhlIHNhbXBsZSBub25jZQ==")
    ≡ codes "s3pPLMBiTxaQ9kYGzzhZRbK+xOo="
unfolding compute_accept encode
sample_accept = refl

upgrade-session_example :
    (accept : Bytes) × (c : Conn) × (upgrade
        (λ s. sample_digest)
        sample_headers
        (hijacked (record {
          input = stream (ping ∷ []) ++ (client_frame hello ++ (7 ∷ []));
          output = [];
          writes = [];
        }))
      ≡ upgraded c)
    × (decode accept ≡ some sample_digest)
    × (read_message c ≡ (
      record {
        input = 7 ∷ [];
        output = switching_protocols accept ++ pongs (ping ∷ []);
        writes = [];
      },
      ok (codes "Hello"),
    ))
unfolding bytes_eq
upgrade-session_example =
    upgrade-session (λ s. sample_digest) sample_headers (ping ∷ []) hello (ok (codes "Hello"))
      (7 ∷ []) (λ e. cc) refl
      (
        omega arith,
        (
          omega arith,
          (
            omega arith,
            (
              omega arith,
              (
                omega arith,
                (
                  omega arith,
                  (
                    omega arith,
                    (
                      omega arith,
                      (
                        omega arith,
                        (
                          omega arith,
                          (
                            omega arith,
                            (
                              omega arith,
                              (
                                omega arith,
                                (
                                  omega arith,
                                  (
                                    omega arith,
                                    (
                                      omega arith,
                                      (
                                        omega arith,
                                        (omega arith, (omega arith, (omega arith, tt))),
                                      ),
                                    ),
                                  ),
                                ),
                              ),
                            ),
                          ),
                        ),
                      ),
                    ),
                  ),
                ),
              ),
            ),
          ),
        ),
      )
      (((omega arith), (λ e. omega arith), (λ e. omega arith)), tt) (omega arith) (inl (refl, refl))
