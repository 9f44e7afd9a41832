-- ===== src/RateLimit/Examples.antt =====
-- backend/internal/ratelimit/limiter.go with a counter for each key.
use nyc_taxi_real_time_eta_p.Common.{ℕ, ◌+◌, ◌≡◌, refl, [], ◌∷◌, none, some, if◌then◌else◌}
use nyc_taxi_real_time_eta_p.Common.Bytes.{Bytes, codes, bytes_eq}
use nyc_taxi_real_time_eta_p.Common.Int.{pos}
use nyc_taxi_real_time_eta_p.RateLimit.{Counters, Limiter, allow, run}

-- INCR of a key in a store of one counter: the other keys fail.
abbrev one_key : Bytes
one_key = codes "ratelimit:ip:2"

abbrev counter : Counters
counter = record {
  S = ℕ;
  incr = λ k n. if bytes_eq k one_key then (some (n + 1), n + 1) else (none, n);
  expire = λ k t n. n;
}

abbrev two_a_minute : Limiter
two_a_minute = record { limit = pos 2; window_seconds = pos 60 }

counted : (n s : ℕ) → (counter.incr one_key s).0 ≡ some n → n ≡ s + 1
unfolding bytes_eq
counted n s h = cc

-- A window of 0 seconds: the first request panics.
no_window :
    allow counter (record { limit = pos 2; window_seconds = pos 0 }) (codes "ip") 120 0 ≡ none
unfolding allow
no_window = refl

-- The third request of the window is refused.
third_refused :
    run counter two_a_minute (codes "ip") (120 ∷ 130 ∷ 179 ∷ []) 0
    ≡ some (record { allowed = 2; counted = 3; uncounted = 0 })
unfolding run bytes_eq nyc_taxi_real_time_eta_p.Redis.Decimal.format_decimal
third_refused = refl
