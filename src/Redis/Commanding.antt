-- ===== src/Redis/Commanding.antt =====
-- What the commands of backend/internal/cache/redis_client.go do to the pool, and what `GetOrNil` makes
-- of the replies to GET.
use nyc_taxi_real_time_eta_p.Common.{
  ℕ, ◌+◌, ◌-◌, ◌^◌, ◌≤◌, ◌<◌, ◌≡◌, refl, ap, ◌∙◌, Bool, true, false, List, [], ◌∷◌, ◌++◌, Option,
  none, some, arith, ◌==◌, length, length-append, inl, inr, Bool-cases,
}
use nyc_taxi_real_time_eta_p.Common.Bytes.{Bytes, codes}
use nyc_taxi_real_time_eta_p.Common.Int.{pos, negsuc}
use nyc_taxi_real_time_eta_p.Redis.Decimal.{format_decimal, atoi, atoi-format_decimal}
use nyc_taxi_real_time_eta_p.Redis.Protocol
use nyc_taxi_real_time_eta_p.Redis.Protocol.{crlf, write_command, read_line, read_bulk, read_reply}
use nyc_taxi_real_time_eta_p.Redis.RoundTrip.{read_header, read_bulk-append}
use nyc_taxi_real_time_eta_p.Redis.Commands.{
  Conn, Client, Result, ok, err, get_conn, put_conn, do_reply, do_on, do_command, get_line, get_on,
  get_or_nil,
}

-- The pool is within its size.
abbrev pub IsBounded : Client → Type 0
IsBounded c = (length c.pool ≤ c.pool_size)

put_conn-IsBounded :
    (conn : Conn) (healthy : Bool) (c : Client) → IsBounded c → IsBounded (put_conn conn healthy c)
unfolding put_conn
put_conn-IsBounded conn healthy c h = ground (arith, length-append c.pool (conn ∷ []))

get_conn-IsBounded :
    (dialled : Option Conn) (c : Client) → IsBounded c → IsBounded (get_conn dialled c).1
unfolding get_conn
get_conn-IsBounded dialled c h = go c.pool refl
  where
    go :
        (p : List Conn)
        → c.pool ≡ p
        → IsBounded
            (elim p as (λ _. Option Conn × Client) [
              | [] ↦ (dialled, c)
              | conn ∷ rest ↦ (some conn, record c { pool = rest })
            ]).1
    go [] e = h
    go (conn ∷ rest) e = omega (arith, h, ap length e)

do_reply-IsBounded :
    (conn : Conn) (c : Client) (r : Protocol.Reply) → IsBounded c → IsBounded (do_reply conn c r).0
unfolding do_reply
do_reply-IsBounded conn c (Protocol.reply typ v left) h = elim (Bool-cases (typ == 45)) [
  | inl e ↦ rw e (put_conn-IsBounded (record conn { input = [] }) true c h)
  | inr e ↦ rw e (put_conn-IsBounded (record conn { input = [] }) true c h)
]
do_reply-IsBounded conn c Protocol.err h = put_conn-IsBounded conn false c h
do_reply-IsBounded conn c Protocol.panics h = h
do_reply-IsBounded conn c Protocol.stuck h = h

do_on-IsBounded :
    (args : List Bytes) (writable : Bool) (input out : Bytes) (c : Client)
    → IsBounded c
    → IsBounded (do_on args (record { input = input; output = out; is_writable = writable }) c).0
unfolding do_on
do_on-IsBounded args true input out c h =
    do_reply-IsBounded
      (record { input = input; output = out ++ write_command args; is_writable = true }) c
      (read_reply (length input + 1) input) h
do_on-IsBounded args false input out c h =
    put_conn-IsBounded (record { input = input; output = out; is_writable = false }) false c h

-- No command, however it ends, makes the pool larger than its size.
do_command-IsBounded :
    (args : List Bytes) (dialled : Option Conn) (c : Client)
    → IsBounded c
    → IsBounded (do_command args dialled c).0
unfolding do_command
do_command-IsBounded args dialled c h = go (get_conn dialled c) (get_conn-IsBounded dialled c h)
  where
    go :
        (r : Option Conn × Client)
        → IsBounded r.1
        → IsBounded
            (elim r.0 as (λ _. Client × Result (ℕ × Bytes)) [
              | none ↦ (r.1, err)
              | some x ↦ do_on args x r.1
            ]).0
    go (none, c') k = k
    go (some x, c') k = do_on-IsBounded args x.is_writable x.input x.output c' k

-- The reply of a server to GET: the value, or none.
unfoldable pub bulk_reply : Option Bytes → Bytes
bulk_reply none = codes "$-1" ++ crlf
bulk_reply (some v) = 36 ∷ (format_decimal (length v) ++ (crlf ++ (v ++ crlf)))

abbrev pub requesting : Bytes → Bytes → Bytes → Conn
requesting key out input = record {
  input = input;
  output = out ++ write_command (codes "GET" ∷ key ∷ []);
  is_writable = true;
}

miss_line : read_line (codes "$-1" ++ crlf) ≡ some (codes "$-1", [])
unfolding read_line
miss_line = refl

minus_one : atoi (codes "-1") ≡ some (negsuc 0)
unfolding atoi
minus_one = refl

line_step :
    (key out input line left : Bytes) (c : Client)
    → read_line input ≡ some (line, left)
    → get_on key (record { input = input; output = out; is_writable = true }) c
      ≡ get_line (requesting key out []) c line left
unfolding get_on
line_step key out input line left c e = rw (e, get_on)

bulk_step :
    (conn : Conn) (c : Client) (body left v rest : Bytes) (n : ℕ)
    → atoi body ≡ some (pos n)
    → read_bulk (pos n) left ≡ Protocol.reply 36 v rest
    → get_line conn c (36 ∷ body) left ≡ (put_conn conn true c, ok (some v))
unfolding get_line
bulk_step conn c body left v rest n e f = rw (e, get_line) (rw (f, get_line))

miss_step :
    (conn : Conn) (c : Client) (body left : Bytes)
    → atoi body ≡ some (negsuc 0)
    → get_line conn c (36 ∷ body) left ≡ (put_conn conn true c, ok none)
unfolding get_line
miss_step conn c body left e = rw (e, get_line)

-- `GetOrNil` on a pooled connection that it can write to and that brings the bulk reply of a server:
-- the value of the key, or a miss; and the connection, with the request written, goes back to the
-- pool.
get_or_nil-bulk_reply :
    (key : Bytes) (value : Option Bytes) (dialled : Option Conn) (out : Bytes) (rest : List Conn)
    (size : ℕ) (closed : List Conn)
    → ((v : Bytes) → value ≡ some v → length v < 2 ^ 63 - 2)
    → get_or_nil key dialled (record {
      pool = record { input = bulk_reply value; output = out; is_writable = true } ∷ rest;
      pool_size = size;
      closed = closed;
    })
      ≡ (
        put_conn
            (requesting key out [])
            true
            (record { pool = rest; pool_size = size; closed = closed }),
        ok value,
      )
unfolding get_or_nil get_conn bulk_reply
get_or_nil-bulk_reply key none dialled out rest size closed h =
    line_step key out (codes "$-1" ++ crlf) _ _
      (record { pool = rest; pool_size = size; closed = closed }) miss_line
    ∙ miss_step _ _ (codes "-1") [] minus_one
get_or_nil-bulk_reply key (some v) dialled out rest size closed h =
    line_step key out (36 ∷ (format_decimal (length v) ++ (crlf ++ (v ++ crlf)))) _ _
      (record { pool = rest; pool_size = size; closed = closed })
      (read_header 36 (length v) (v ++ crlf) refl)
    ∙ bulk_step _ _ _ _ v [] (length v) (atoi-format_decimal (length v) (omega (arith, h v refl)))
        (read_bulk-append v [] (h v refl))
