-- ===== src/Redis/Examples.antt =====
-- backend/internal/cache/redis_client.go on concrete bytes.
use nyc_taxi_real_time_eta_p.Common.{◌+◌, ◌≡◌, ◌≢◌, refl, List, [], ◌∷◌, ◌++◌, arith, length}
use nyc_taxi_real_time_eta_p.Common.Bytes.{Bytes, codes}
use nyc_taxi_real_time_eta_p.Redis.Protocol.{reply, stuck, crlf, write_command, read_reply}
use nyc_taxi_real_time_eta_p.Redis.Replies.{read_reply-ne-stuck}
use nyc_taxi_real_time_eta_p.Redis.RoundTrip.{read_reply-write_command}

abbrev get_k : List Bytes
get_k = codes "GET" ∷ codes "k" ∷ []

get_k_written :
    write_command get_k
    ≡ codes "*2"
      ++ (crlf
          ++ (codes "$3"
              ++ (crlf
                  ++ (codes "GET" ++ (crlf ++ (codes "$1" ++ (crlf ++ (codes "k" ++ crlf))))))))
unfolding write_command nyc_taxi_real_time_eta_p.Redis.Decimal.format_decimal
get_k_written = refl

read_reply-write_command_example :
    read_reply 2 (write_command get_k ++ codes "rest") ≡ reply 42 (codes "k") (codes "rest")
read_reply-write_command_example =
    read_reply-write_command 2 get_k (codes "rest") (omega arith) (omega arith)
      (omega arith, (omega arith, tt))

abbrev nested : Bytes
nested = codes "*9" ++ (crlf ++ (codes "*1" ++ (crlf ++ (codes "$5" ++ crlf))))

read_reply-ne-stuck_example : read_reply (length nested + 1) nested ≢ stuck
read_reply-ne-stuck_example = read_reply-ne-stuck nested

abbrev minus_two : Bytes
minus_two = codes "$-2" ++ crlf
