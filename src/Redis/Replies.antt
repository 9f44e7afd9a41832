-- ===== src/Redis/Replies.antt =====
-- `readReply` of backend/internal/cache/redis_client.go on any input: it ends; and lengths below -1.
use nyc_taxi_real_time_eta_p.Common.{
  ℕ, zero, suc, ◌+◌, ◌-◌, ◌^◌, ◌≤◌, ◌<◌, ◌≡◌, ◌≢◌, ◌||◌, [], ◌∷◌, Option, none, some, arith, ltb,
  ◌==◌, length, length-drop, inl, inr, Option-cases, Bool-cases,
}
use nyc_taxi_real_time_eta_p.Common.Bytes.{Bytes}
use nyc_taxi_real_time_eta_p.Common.Int.{ℤ, pos, negsuc}
use nyc_taxi_real_time_eta_p.Redis.Decimal.{atoi}
use nyc_taxi_real_time_eta_p.Redis.Protocol.{
  Reply, reply, err, panics, stuck, read_string, read_line, read_bulk, read_items, read_array,
  read_typed, read_reply,
}

-- A reply that leaves at most `n` bytes, or a failure or panic, but no end of the fuel.
abbrev Ends : ℕ → Reply → Type 0
Ends n (reply typ v left) = length left ≤ n
Ends n err = Unit
Ends n panics = Unit
Ends n stuck = ⊥

Ends-mono : (n m : ℕ) (r : Reply) → n ≤ m → Ends n r → Ends m r
Ends-mono n m (reply typ v left) h e = omega (arith, h, e)
Ends-mono n m err h e = tt
Ends-mono n m panics h e = tt
Ends-mono n m stuck h e = e

read_string_shorter :
    (input line left : Bytes) → read_string input ≡ some (line, left) → length left < length input
unfolding read_string
read_string_shorter [] line left h = cc
read_string_shorter (c ∷ s) line left h = elim (Bool-cases (c == 10)) [
  | inl e ↦ ground arith
  | inr e ↦ elim (Option-cases (read_string s)) [
    | inl n ↦ cc
    | inr ((line', left'), k) ↦ ground (arith, read_string_shorter s line' left' k)
  ]
]

read_line_shorter :
    (input line left : Bytes) → read_line input ≡ some (line, left) → length left < length input
unfolding read_line
read_line_shorter input line left h = elim (Option-cases (read_string input)) [
  | inl n ↦ cc
  | inr ((line', left'), k) ↦
      let q : left ≡ left' = ground (arith, k) in rw q (read_string_shorter input line' left' k)
]

read_bulk-Ends : (n : ℤ) (input : Bytes) → Ends (length input) (read_bulk n input)
unfolding read_bulk
read_bulk-Ends (negsuc zero) input = omega arith
read_bulk-Ends (negsuc (suc k)) input = tt
read_bulk-Ends (pos n) input = elim (Bool-cases (ltb n (2 ^ 63 - 2))) [
  | inr e ↦ rw e tt
  | inl e ↦ elim (Bool-cases (ltb (length input) (n + 2))) [
    | inl k ↦ rw (e, k) tt
    | inr k ↦ rw (e, k) (omega (arith, length-drop (n + 2) input))
  ]
]

read_items-Ends :
    (read : Bytes → Reply) (bound n : ℕ) (last input : Bytes)
    → ((s : Bytes) → length s ≤ bound → Ends (length s) (read s))
    → length input ≤ bound
    → Ends (length input) (read_items read n last input)
unfolding read_items
read_items-Ends read bound zero last input reads h = omega arith
read_items-Ends read bound (suc n) last input reads h =
    go (read input) (reads input h)
      (λ v left e. read_items-Ends read bound n v left reads (omega (arith, e, h)))
  where
    go :
        (r : Reply)
        → Ends (length input) r
        → ((v left : Bytes)
            → length left ≤ length input
            → Ends (length left) (read_items read n v left))
        → Ends (length input) (elim r as (λ _. Reply) [
          | reply typ v left ↦ read_items read n v left
          | err ↦ err
          | panics ↦ panics
          | stuck ↦ stuck
        ])
    go (reply typ v left) e rest = Ends-mono (length left) (length input) _ e (rest v left e)
    go err e rest = tt
    go panics e rest = tt
    go stuck e rest = e

read_array-Ends :
    (read : Bytes → Reply) (bound : ℕ) (n : Option ℤ) (input : Bytes)
    → ((s : Bytes) → length s ≤ bound → Ends (length s) (read s))
    → length input ≤ bound
    → Ends (length input) (read_array read n input)
unfolding read_array
read_array-Ends read bound (some (pos n)) input reads h =
    read_items-Ends read bound n [] input reads h
read_array-Ends read bound (some (negsuc n)) input reads h = omega arith
read_array-Ends read bound none input reads h = omega arith

read_typed-Ends :
    (read : Bytes → Reply) (bound : ℕ) (line input : Bytes)
    → ((s : Bytes) → length s ≤ bound → Ends (length s) (read s))
    → length input ≤ bound
    → Ends (length input) (read_typed read line input)
unfolding read_typed
read_typed-Ends read bound [] input reads h = tt
read_typed-Ends read bound (t ∷ body) input reads h =
    elim (Bool-cases (t == 43 || (t == 45 || t == 58))) [
      | inl e ↦ rw e (omega arith)
      | inr e ↦ elim (Bool-cases (t == 36)) [
        | inl f ↦ elim (Option-cases (atoi body)) [
          | inl g ↦ rw (e, f, g) tt
          | inr (n, g) ↦ rw (e, f, g) (read_bulk-Ends n input)
        ]
        | inr f ↦ elim (Bool-cases (t == 42)) [
          | inl g ↦ rw (e, f, g) (read_array-Ends read bound (atoi body) input reads h)
          | inr g ↦ rw (e, f, g) tt
        ]
      ]
    ]

read_reply-Ends :
    (fuel : ℕ) (input : Bytes) → length input < fuel → Ends (length input) (read_reply fuel input)
unfolding read_reply
read_reply-Ends zero input h = absurd (omega arith)
read_reply-Ends (suc fuel) input h = elim (Option-cases (read_line input)) [
  | inl e ↦ rw (e, read_reply) tt
  | inr ((line, left), e) ↦
      let shorter = read_line_shorter input line left e in
      rw (e, read_reply)
        (Ends-mono (length left) (length input) _ (omega (arith, shorter)) (
          read_typed-Ends (read_reply fuel) (length left) line left
            (λ s k. read_reply-Ends fuel s (omega (arith, k, shorter, h))) (omega arith)))
]

-- With as much fuel as there are bytes to come, plus one, `readReply` never runs out of it: on any
-- input, however its arrays nest and whatever lengths they claim, it ends.
pub read_reply-ne-stuck : (input : Bytes) → read_reply (length input + 1) input ≢ stuck
read_reply-ne-stuck input e = rw e at (read_reply-Ends (length input + 1) input (omega arith))

-- A bulk string whose length reads as a number below -1 panics, whatever follows it.
pub read_reply_panics :
    (fuel k : ℕ) (input body left : Bytes)
    → read_line input ≡ some (36 ∷ body, left)
    → atoi body ≡ some (negsuc (suc k))
    → read_reply (suc fuel) input ≡ panics
unfolding read_reply read_typed read_bulk
read_reply_panics fuel k input body left e f = rw (e, read_reply) (rw (f, read_typed))
