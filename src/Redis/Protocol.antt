-- ===== src/Redis/Protocol.antt =====
-- `writeCommand` and `readReply` of backend/internal/cache/redis_client.go. A connection is the bytes
-- that are still to come on it; behind them a read fails.
use nyc_taxi_real_time_eta_p.Common.{
  ℕ, zero, suc, ◌+◌, ◌-◌, ◌^◌, ◌||◌, List, [], ◌∷◌, ◌++◌, Option, none, some, ltb, ◌==◌,
  if◌then◌else◌, length, take, drop,
}
use nyc_taxi_real_time_eta_p.Common.Bytes.{Bytes}
use nyc_taxi_real_time_eta_p.Common.Int.{ℤ, pos, negsuc}
use nyc_taxi_real_time_eta_p.Redis.Decimal.{format_decimal, atoi}

-- A reply with its type byte, its value and what is unread; a failure; a run-time panic. `stuck` is
-- the end of the fuel.
pub data Reply : Type 0 where
  reply : ℕ → Bytes → Bytes → Reply
  err panics stuck : Reply

abbrev pub crlf : Bytes
crlf = 13 ∷ 10 ∷ []

unfoldable pub write_args : List Bytes → Bytes
write_args [] = []
write_args (a ∷ args) =
    36 ∷ (format_decimal (length a) ++ (crlf ++ (a ++ (crlf ++ write_args args))))

unfoldable pub write_command : List Bytes → Bytes
unfolding write_args
write_command args = 42 ∷ (format_decimal (length args) ++ (crlf ++ write_args args))

-- `strings.TrimRight(line, "\r\n")`.
unfoldable pub trim_right : Bytes → Bytes
trim_right [] = []
trim_right (c ∷ s) =
    let rest = trim_right s in
    elim rest [ [] ↦ if c == 13 || c == 10 then [] else c ∷ [] | d ∷ t ↦ c ∷ d ∷ t ]

-- `r.ReadString('\n')`: up to the first line end, which is left out here as it is trimmed anyway.
unfoldable pub read_string : Bytes → Option (Bytes × Bytes)
read_string [] = none
read_string (c ∷ s) =
    let rest = read_string s in
    if c == 10
    then some ([], s)
    else elim rest [ none ↦ none | some (line, left) ↦ some (c ∷ line, left) ]

unfoldable pub read_line : Bytes → Option (Bytes × Bytes)
unfolding trim_right read_string
read_line input = elim (read_string input) [
  | none ↦ none
  | some (line, left) ↦ some (trim_right line, left)
]

-- The bulk string of length `n`. A length of -2 panics at `buf[:n]`, another below it at `make`, as
-- one does whose sum with 2 overflows.
unfoldable pub read_bulk : ℤ → Bytes → Reply
read_bulk (negsuc zero) input = reply 36 [] input
read_bulk (negsuc (suc k)) input = panics
read_bulk (pos n) input =
    if ltb n (2 ^ 63 - 2)
    then if ltb (length input) (n + 2) then err else reply 36 (take n input) (drop (n + 2) input)
    else panics

-- The loop over the `n` elements of an array, where `read` is `readReply`.
unfoldable pub read_items : (Bytes → Reply) → ℕ → Bytes → Bytes → Reply
read_items read zero last input = reply 42 last input
read_items read (suc n) last input = elim (read input) [
  | reply typ v left ↦ read_items read n v left
  | err ↦ err
  | panics ↦ panics
  | stuck ↦ stuck
]

unfoldable pub read_array : (Bytes → Reply) → Option ℤ → Bytes → Reply
unfolding read_items
read_array read (some (pos n)) input = read_items read n [] input
read_array read (some (negsuc n)) input = reply 42 [] input
read_array read none input = reply 42 [] input

-- The `switch` on the type byte of a line.
unfoldable pub read_typed : (Bytes → Reply) → Bytes → Bytes → Reply
unfolding read_bulk read_array
read_typed read [] input = err
read_typed read (typ ∷ body) input =
    if typ == 43 || (typ == 45 || typ == 58)
    then reply typ body input
    else if typ == 36
    then elim (atoi body) [ none ↦ err | some n ↦ read_bulk n input ]
    else if typ == 42
    then read_array read (atoi body) input
    else err

-- Every call reads a line, so that the number of the bytes to come, plus one, is enough fuel.
unfoldable pub read_reply : ℕ → Bytes → Reply
unfolding read_line read_typed
read_reply zero input = stuck
read_reply (suc fuel) input = elim (read_line input) [
  | none ↦ err
  | some (line, left) ↦ read_typed (read_reply fuel) line left
]
