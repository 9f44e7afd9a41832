-- ===== src/Redis/RoundTrip.antt =====
-- What `readReply` of backend/internal/cache/redis_client.go makes of what `writeCommand` writes.
use nyc_taxi_real_time_eta_p.Common.{
  ℕ, zero, suc, ◌+◌, ◌-◌, ◌^◌, ◌≤◌, ◌<◌, ◌≡◌, refl, ap, ◌∙◌, true, false, ◌||◌, List, [], ◌∷◌, ◌++◌,
  append_assoc, some, arith, ◌==◌, if◌then◌else◌, length, length-append, take, drop, take-append,
  All, All-mono,
}
use nyc_taxi_real_time_eta_p.Common.Bytes.{Bytes}
use nyc_taxi_real_time_eta_p.Common.Int.{ℤ, pos}
use nyc_taxi_real_time_eta_p.Redis.Decimal.{
  format_decimal, atoi, is_digit, format_decimal-IsDecimal, atoi-format_decimal,
}
use nyc_taxi_real_time_eta_p.Redis.Protocol.{
  Reply, reply, crlf, write_args, write_command, trim_right, read_string, read_line, read_bulk,
  read_items, read_array, read_typed, read_reply,
}

abbrev pub IsInLine : ℕ → Type 0
IsInLine c = (c == 13 || c == 10) ≡ false

read_string-crlf :
    (s rest : Bytes)
    → All IsInLine s
    → read_string (s ++ (13 ∷ 10 ∷ rest)) ≡ some (s ++ (13 ∷ []), rest)
unfolding read_string
read_string-crlf [] rest h = refl
read_string-crlf (c ∷ s) rest h = rw (read_string-crlf s rest h.1) (ground (arith, h.0))

trim_plain : (s : Bytes) → All IsInLine s → trim_right s ≡ s
unfolding trim_right
trim_plain [] h = refl
trim_plain (c ∷ s) h = rw (trim_plain s h.1) (last c s h.0)
  where
    last :
        (c : ℕ) (s : Bytes)
        → IsInLine c
        → (elim s as (λ _. Bytes) [
          | [] ↦ if c == 13 || c == 10 then [] else c ∷ []
          | d ∷ t ↦ c ∷ d ∷ t
        ])
          ≡ c ∷ s
    last c [] h = ground (arith, h)
    last c (d ∷ t) h = refl

trim_cr : (s : Bytes) → All IsInLine s → trim_right (s ++ (13 ∷ [])) ≡ s
unfolding trim_right
trim_cr [] h = refl
trim_cr (c ∷ s) h = rw (trim_cr s h.1) (trim_plain_step c s h)
  where
    trim_plain_step :
        (c : ℕ) (s : Bytes)
        → All IsInLine (c ∷ s)
        → (elim s as (λ _. Bytes) [
          | [] ↦ if c == 13 || c == 10 then [] else c ∷ []
          | d ∷ t ↦ c ∷ d ∷ t
        ])
          ≡ c ∷ s
    trim_plain_step c [] h = ground (arith, h.0)
    trim_plain_step c (d ∷ t) h = refl

read_line-crlf :
    (s rest : Bytes) → All IsInLine s → read_line (s ++ (crlf ++ rest)) ≡ some (s, rest)
unfolding read_line
read_line-crlf s rest h =
    rw (read_string-crlf s rest h, read_line) (ap (λ l. some (l, rest)) (trim_cr s h))

digit-IsInLine : (c : ℕ) → is_digit c ≡ true → IsInLine c
digit-IsInLine c h = ground arith

-- A type byte and a length.
pub read_header :
    (t n : ℕ) (rest : Bytes)
    → IsInLine t
    → read_line (t ∷ (format_decimal n ++ (crlf ++ rest))) ≡ some (t ∷ format_decimal n, rest)
read_header t n rest h = read_line-crlf (t ∷ format_decimal n) rest (
  h,
  All-mono (λ c. is_digit c ≡ true) IsInLine digit-IsInLine (format_decimal n)
      (format_decimal-IsDecimal n).0,
)

pub read_bulk-append :
    (a rest : Bytes)
    → length a < 2 ^ 63 - 2
    → read_bulk (pos (length a)) (a ++ (crlf ++ rest)) ≡ reply 36 a rest
unfolding read_bulk
read_bulk-append a rest h =
    let whole : length (a ++ (crlf ++ rest)) ≡ length a + (2 + length rest) =
      length-append a (crlf ++ rest) ∙ omega arith in
    let body : take (length a) (a ++ (crlf ++ rest)) ≡ a = take-append a (crlf ++ rest) in
    let left : drop (length a + 2) (a ++ (crlf ++ rest)) ≡ rest = drop_more a rest in
    ground (arith, whole, body, left)
  where
    drop_more : (a rest : Bytes) → drop (length a + 2) (a ++ (crlf ++ rest)) ≡ rest
    drop_more [] rest = let q : 0 + 2 ≡ 2 = omega arith in ap (λ n. drop n (crlf ++ rest)) q
    drop_more (x ∷ a) rest =
        let q : suc (length a) + 2 ≡ suc (length a + 2) = omega arith in
        ap (λ n. drop n (x ∷ (a ++ (crlf ++ rest)))) q ∙ drop_more a rest

reply_of_line :
    (fuel : ℕ) (input line left : Bytes)
    → read_line input ≡ some (line, left)
    → read_reply (suc fuel) input ≡ read_typed (read_reply fuel) line left
unfolding read_reply
reply_of_line fuel input line left e = rw (e, read_reply)

bulk_of_line :
    (read : Bytes → Reply) (body input : Bytes) (n : ℤ)
    → atoi body ≡ some n
    → read_typed read (36 ∷ body) input ≡ read_bulk n input
unfolding read_typed
bulk_of_line read body input n e = rw (e, read_typed)

array_of_line :
    (read : Bytes → Reply) (body input : Bytes) (n : ℕ)
    → atoi body ≡ some (pos n)
    → read_typed read (42 ∷ body) input ≡ read_items read n [] input
unfolding read_typed read_array
array_of_line read body input n e = rw (e, read_typed)

items_step :
    (read : Bytes → Reply) (n t : ℕ) (last input v left : Bytes)
    → read input ≡ reply t v left
    → read_items read (suc n) last input ≡ read_items read n v left
unfolding read_items
items_step read n t last input v left e = rw (e, read_items)

-- One argument of a command, read as a bulk string.
read_arg :
    (fuel : ℕ) (a rest : Bytes)
    → length a < 2 ^ 63 - 2
    → read_reply (suc fuel) (36 ∷ (format_decimal (length a) ++ (crlf ++ (a ++ (crlf ++ rest)))))
      ≡ reply 36 a rest
read_arg fuel a rest h =
    reply_of_line fuel _ _ _ (read_header 36 (length a) (a ++ (crlf ++ rest)) refl)
    ∙ bulk_of_line (read_reply fuel) _ _ _ (atoi-format_decimal (length a) (omega (arith, h)))
    ∙ read_bulk-append a rest h

abbrev pub last_of : Bytes → List Bytes → Bytes
last_of last [] = last
last_of last (a ∷ args) = last_of a args

read_items-write_args :
    (fuel : ℕ) (args : List Bytes) (last rest : Bytes)
    → All (λ a. length a < 2 ^ 63 - 2) args
    → read_items (read_reply (suc fuel)) (length args) last (write_args args ++ rest)
      ≡ reply 42 (last_of last args) rest
unfolding read_items write_args
read_items-write_args fuel [] last rest h = refl
read_items-write_args fuel (a ∷ args) last rest h = rw (flatten a args rest) (
    items_step (read_reply (suc fuel)) (length args) 36 last _ _ _
      (read_arg fuel a (write_args args ++ rest) h.0)
    ∙ read_items-write_args fuel args a rest h.1)
  where
    flatten :
        (a : Bytes) (args : List Bytes) (rest : Bytes)
        → write_args (a ∷ args) ++ rest
          ≡ 36 ∷ (format_decimal (length a) ++ (crlf ++ (a ++ (crlf ++ (write_args args ++ rest)))))
    flatten a args rest =
        ap (λ s. 36 ∷ s)
          (append_assoc (format_decimal (length a)) (crlf ++ (a ++ (crlf ++ write_args args))) rest
            ∙ ap (λ s. format_decimal (length a) ++ (crlf ++ s))
                (append_assoc a (crlf ++ write_args args) rest))

-- Whatever bytes the arguments hold, line ends included, `readReply` reads what `writeCommand` wrote as
-- one array whose last element is the last argument, and leaves exactly what follows it unread: the
-- connection stays in sync.
pub read_reply-write_command :
    (fuel : ℕ) (args : List Bytes) (rest : Bytes)
    → 2 ≤ fuel
    → length args < 2 ^ 63
    → All (λ a. length a < 2 ^ 63 - 2) args
    → read_reply fuel (write_command args ++ rest) ≡ reply 42 (last_of [] args) rest
unfolding write_command
read_reply-write_command zero args rest two few h = absurd (omega arith)
read_reply-write_command (suc zero) args rest two few h = absurd (omega arith)
read_reply-write_command (suc (suc fuel)) args rest two few h =
    ap (read_reply (suc (suc fuel))) (
      ap (λ s. 42 ∷ s) (append_assoc (format_decimal (length args)) (crlf ++ write_args args) rest))
    ∙ reply_of_line (suc fuel) _ _ _ (read_header 42 (length args) (write_args args ++ rest) refl)
    ∙ array_of_line (read_reply (suc fuel)) _ _ _ (atoi-format_decimal (length args) few)
    ∙ read_items-write_args fuel args [] rest h
