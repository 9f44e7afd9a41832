-- ===== src/Redis/Commands.antt =====
-- The connection pool and the commands of backend/internal/cache/redis_client.go. A connection is the
-- bytes that its peer will send and whether the next write on it succeeds; what a dial gives is an
-- argument. Deadlines are not modelled: a read that they end is a read at the end of the bytes.
use nyc_taxi_real_time_eta_p.Common.{
  ℕ, ◌+◌, Bool, true, false, not, List, [], ◌∷◌, ◌++◌, Option, none, some, ltb, ◌==◌, if◌then◌else◌,
  length,
}
use nyc_taxi_real_time_eta_p.Common.Bytes.{Bytes, codes}
use nyc_taxi_real_time_eta_p.Common.Int.{ℤ, pos, negsuc}
use nyc_taxi_real_time_eta_p.Redis.Decimal.{format_decimal, atoi}
use nyc_taxi_real_time_eta_p.Redis.Protocol
use nyc_taxi_real_time_eta_p.Redis.Protocol.{write_command, read_line, read_bulk, read_reply}

pub record Conn : Type 0 where
  pub input : Bytes
  pub output : Bytes
  pub is_writable : Bool

pub record Client : Type 0 where
  pub pool : List Conn
  pub pool_size : ℕ
  -- The connections that were closed, newest first.
  pub closed : List Conn

pub data Result (A : Type 0) : Type 0 where
  ok : A → Result A
  err panics stuck : Result A

-- `getConn`: a pooled connection, or what a dial gives.
unfoldable pub get_conn : Option Conn → Client → Option Conn × Client
get_conn dialled c = elim c.pool [
  | [] ↦ (dialled, c)
  | conn ∷ rest ↦ (some conn, record c { pool = rest })
]

unfoldable pub put_conn : Conn → Bool → Client → Client
put_conn conn healthy c =
    if healthy
    then if ltb (length c.pool) c.pool_size
      then record c { pool = c.pool ++ (conn ∷ []) }
      else record c { closed = conn ∷ c.closed }
    else record c { closed = conn ∷ c.closed }

-- The end of `do` on a connection after its write: the bytes behind the reply are lost with the
-- `bufio.Reader`, as it may have read them ahead. A panic leaves the connection out of the pool.
unfoldable pub do_reply : Conn → Client → Protocol.Reply → Client × Result (ℕ × Bytes)
unfolding put_conn
do_reply conn c (Protocol.reply typ v left) =
    let c' = put_conn (record conn { input = [] }) true c in
    if typ == 45 then (c', err) else (c', ok (typ, v))
do_reply conn c Protocol.err = (put_conn conn false c, err)
do_reply conn c Protocol.panics = (c, panics)
do_reply conn c Protocol.stuck = (c, stuck)

unfoldable pub do_on : List Bytes → Conn → Client → Client × Result (ℕ × Bytes)
unfolding put_conn do_reply
do_on args conn c =
    if not conn.is_writable
    then (put_conn conn false c, err)
    else do_reply (record conn { output = conn.output ++ write_command args }) c
        (read_reply (length conn.input + 1) conn.input)

-- `do`: the type byte and the value of the reply, which is no error reply.
unfoldable pub do_command : List Bytes → Option Conn → Client → Client × Result (ℕ × Bytes)
unfolding get_conn do_on
do_command args dialled c =
    let (conn, c') = get_conn dialled c in elim conn [ none ↦ (c', err) | some x ↦ do_on args x c' ]

unfoldable pub ping : Option Conn → Client → Client × Result Unit
unfolding do_command
ping dialled c =
    let (c', r) = do_command (codes "PING" ∷ []) dialled c in
    (c', elim r [ ok v ↦ ok tt | err ↦ err | panics ↦ panics | stuck ↦ stuck ])

unfoldable pub set_ex : Bytes → Bytes → ℕ → Option Conn → Client → Client × Result Unit
unfolding do_command
set_ex key value ttl_seconds dialled c =
    let (c', r) =
      do_command (codes "SETEX" ∷ key ∷ format_decimal ttl_seconds ∷ value ∷ []) dialled c in
    (c', elim r [ ok v ↦ ok tt | err ↦ err | panics ↦ panics | stuck ↦ stuck ])

unfoldable pub incr : Bytes → Option Conn → Client → Client × Result ℤ
unfolding do_command
incr key dialled c =
    let (c', r) = do_command (codes "INCR" ∷ key ∷ []) dialled c in
    (
      c',
      elim r [
        | ok (typ, v) ↦ elim (atoi v) [ none ↦ err | some n ↦ ok n ]
        | err ↦ err
        | panics ↦ panics
        | stuck ↦ stuck
      ],
    )

unfoldable pub expire : Bytes → ℕ → Option Conn → Client → Client × Result Unit
unfolding do_command
expire key ttl_seconds dialled c =
    let (c', r) = do_command (codes "EXPIRE" ∷ key ∷ format_decimal ttl_seconds ∷ []) dialled c in
    (c', elim r [ ok v ↦ ok tt | err ↦ err | panics ↦ panics | stuck ↦ stuck ])

-- `GetOrNil` behind its `readLine`: none is a miss.
unfoldable pub get_line : Conn → Client → Bytes → Bytes → Client × Result (Option Bytes)
unfolding put_conn
get_line conn c [] left = (put_conn conn true c, err)
get_line conn c (t ∷ body) left =
    if not (t == 36) then (put_conn conn true c, err) else elim (atoi body) [
      | none ↦ (put_conn conn false c, err)
      | some n ↦ elim n [
        | negsuc k ↦ if k == 0 then (put_conn conn true c, ok none) else (c, panics)
        | pos m ↦ elim (read_bulk (pos m) left) [
          | Protocol.reply typ v rest ↦ (put_conn conn true c, ok (some v))
          | Protocol.err ↦ (put_conn conn false c, err)
          | Protocol.panics ↦ (c, panics)
          | Protocol.stuck ↦ (c, stuck)
        ]
      ]
    ]

unfoldable pub get_on : Bytes → Conn → Client → Client × Result (Option Bytes)
unfolding put_conn get_line read_line
get_on key conn c =
    if not conn.is_writable then (put_conn conn false c, err) else elim (read_line conn.input) [
      | none ↦ (put_conn conn false c, err)
      | some (line, left) ↦
          get_line
            (record conn {
              input = [];
              output = conn.output ++ write_command (codes "GET" ∷ key ∷ []);
            })
            c line left
    ]

unfoldable pub get_or_nil : Bytes → Option Conn → Client → Client × Result (Option Bytes)
unfolding get_conn get_on
get_or_nil key dialled c =
    let (conn, c') = get_conn dialled c in elim conn [ none ↦ (c', err) | some x ↦ get_on key x c' ]
