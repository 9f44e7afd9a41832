-- ===== src/RateLimit.antt =====
-- backend/internal/ratelimit/limiter.go. Redis is a parameter: INCR, none on an error, and EXPIRE. The
-- clock is an argument, in seconds.
use Prim.Native.Nat.{min}
use nyc_taxi_real_time_eta_p.Common.{
  ℕ, zero, suc, ◌+◌, ◌-◌, ◌/◌, ◌≤◌, ◌<◌, ◌≡◌, ◌⊎◌, Bool, true, List, [], ◌∷◌, ◌++◌, Option, none,
  some, ◌==◌, if◌then◌else◌, Bool-cases, length,
}
use nyc_taxi_real_time_eta_p.Common.Bytes.{Bytes, codes}
use nyc_taxi_real_time_eta_p.Common.Int.{ℤ, pos, negsuc, pos_part, leb_ℤ}
use nyc_taxi_real_time_eta_p.Redis.Decimal.{format_int}
mod Examples

pub record Counters : Type 1 where
  pub S : Type 0
  pub incr : Bytes → S → Option ℕ × S
  pub expire : Bytes → ℤ → S → S

pub record Limiter : Type 0 where
  pub limit : ℤ
  pub window_seconds : ℤ

-- Go's quotient of a time from 0 on by an `int`, which is cut towards 0; a division by 0 panics.
unfoldable pub quotient : ℕ → ℤ → Option ℤ
quotient now (pos n) = if n == 0 then none else some (pos (now / n))
quotient now (negsuc k) = some (if now / (k + 1) == 0 then pos 0 else negsuc (now / (k + 1) - 1))

module _ (redis : Counters) where
  -- The key of the window, none for a panic.
  unfoldable pub window_key : Limiter → Bytes → ℕ → Option Bytes
  unfolding quotient
  window_key l identifier now = elim (quotient now l.window_seconds) [
    | none ↦ none
    | some window ↦ some (codes "ratelimit:" ++ (identifier ++ (codes ":" ++ format_int window)))
  ]

  -- `Allow` behind the key of the window.
  unfoldable pub allow_key : Limiter → Bytes → redis.S → Bool × redis.S
  allow_key l key s =
      let (count, s') = redis.incr key s in
      elim count [
        | none ↦ (true, s')
        | some n ↦
            (leb_ℤ (pos n) l.limit, if n == 1 then redis.expire key l.window_seconds s' else s')
      ]

  -- None for a panic.
  unfoldable pub allow : Limiter → Bytes → ℕ → redis.S → Option (Bool × redis.S)
  unfolding window_key allow_key
  allow l identifier now s = elim (window_key l identifier now) [
    | none ↦ none
    | some key ↦ some (allow_key l key s)
  ]

  -- What Redis promises of one key until its expiry: it counts the INCRs; one whose reply is lost may
  -- have been counted or not; and an expiry to come leaves the count.
  pub record CounterLaws (key : Bytes) : Type 0 where
    pub value : redis.S → ℕ
    pub incr_value :
        (n : ℕ) (s : redis.S)
        → (redis.incr key s).0 ≡ some n
        → (n ≡ value s + 1) × (value (redis.incr key s).1 ≡ n)
    pub incr_failed :
        (s : redis.S)
        → (redis.incr key s).0 ≡ none
        → (value (redis.incr key s).1 ≡ value s) ⊎ (value (redis.incr key s).1 ≡ value s + 1)
    pub expire_value : (t : ℕ) (s : redis.S) → 0 < t → value (redis.expire key (pos t) s) ≡ value s

  -- Requests at the given times, one after the other: how many were let through that Redis answered,
  -- how many it answered, and how many were let through that it failed on.
  pub record Tally : Type 0 where
    pub allowed : ℕ
    pub counted : ℕ
    pub uncounted : ℕ

  abbrev tally : Option ℕ → Bool → Tally → Tally
  tally none passed t = if passed then record t { uncounted = t.uncounted + 1 } else t
  tally (some n) passed t = record t {
    allowed = if passed then t.allowed + 1 else t.allowed;
    counted = t.counted + 1;
  }

  -- What INCR answers the request.
  abbrev incr_reply : Option Bytes → redis.S → Option ℕ
  incr_reply none s = none
  incr_reply (some key) s = (redis.incr key s).0

  -- None where a request panics.
  unfoldable pub run : Limiter → Bytes → List ℕ → redis.S → Option Tally
  unfolding allow
  run l identifier [] s = some (record { allowed = 0; counted = 0; uncounted = 0 })
  run l identifier (now ∷ times) s = elim (allow l identifier now s) [
    | none ↦ none
    | some (passed, s') ↦ elim (run l identifier times s') [
      | none ↦ none
      | some rest ↦ some (tally (incr_reply (window_key l identifier now) s) passed rest)
    ]
  ]

  module _ (l : Limiter) (identifier key : Bytes) (laws : CounterLaws key) (window : ℕ) where
    -- A tally from the count `value` on.
    abbrev pub IsTally : ℕ → List ℕ → Tally → Type 0
    IsTally value times t =
        let room = pos_part l.limit - value in
        (t.allowed ≤ t.counted)
        × (t.allowed ≤ room)
        × (min t.counted (room - t.uncounted) ≤ t.allowed)
        × (t.counted + t.uncounted ≡ length times)
