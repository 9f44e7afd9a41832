-- ===== src/Middleware/Examples.antt =====
-- Runs of backend/internal/middleware/ratelimit.go, with one counter in place of Redis and a handler
-- that counts its requests.
use nyc_taxi_real_time_eta_p.Common.{
  ℕ, zero, suc, ◌+◌, ◌≡◌, ◌≢◌, refl, [], ◌∷◌, ◌++◌, Option, none, some, All, arith,
}
use nyc_taxi_real_time_eta_p.Common.Bytes.{Bytes, codes, bytes_eq}
use nyc_taxi_real_time_eta_p.Common.Int.{pos}
use nyc_taxi_real_time_eta_p.RateLimit.{Counters, Limiter, allow}
use nyc_taxi_real_time_eta_p.Metrics.Histogram.{Histogram}
use nyc_taxi_real_time_eta_p.Middleware.Wrapping
use nyc_taxi_real_time_eta_p.Middleware.Wrapping.{Writer, Site, returned, panics, cors, root}
use nyc_taxi_real_time_eta_p.Middleware.Serving.{serve, stack, Serves, stack-Serves}
use nyc_taxi_real_time_eta_p.Middleware.Responding.{Leaf, write_json, IsOrderly}
use nyc_taxi_real_time_eta_p.Middleware.{Request, comma, client_ip, rate_limit, too_many_requests}

abbrev counter : Counters
counter = record { S = ℕ; incr = λ k n. (some (n + 1), n + 1); expire = λ k t n. n }

abbrev once : Limiter
once = record { limit = pos 1; window_seconds = pos 60 }

abbrev counting : ℕ → ℕ × ℕ
counting n = (n + 1, n)

abbrev no_host : Bytes → Option Bytes
no_host a = none

abbrev proxied : Request
proxied = record { forwarded = codes "ip" ++ (comma ∷ codes " proxy"); remote_addr = codes "lb:1" }

one_entry :
    client_ip no_host (record { forwarded = codes "ip"; remote_addr = codes "lb:1" }) ≡ codes "ip"
unfolding client_ip bytes_eq
one_entry = refl

direct : client_ip no_host (record { forwarded = []; remote_addr = codes "pipe" }) ≡ codes "pipe"
unfolding client_ip bytes_eq
direct = refl

second_refused :
    rate_limit counter no_host once 120 counting proxied (1, 7) ≡ ((2, 7), too_many_requests)
unfolding rate_limit client_ip bytes_eq allow
second_refused = refl

no_comma : All (λ b. b ≢ comma) (codes "ip")
no_comma = (omega arith, (omega arith, tt))

-- A handler that answers by JSON, except that it panics in state 0.
abbrev answering : Leaf ℕ
answering r zero = (0, [], panics)
answering r (suc n) = (n, write_json 200 (codes "{}"), returned)

abbrev site : ℕ → Site ℕ ℕ
site n = record { app = n; logged = []; recovered = []; requests_total = []; request_duration = [] }

abbrev blank : Writer
blank = record { header = []; sent = none; body = []; recorded = [] }

abbrev no_time : Histogram ℕ
no_time = record { buckets = []; counts = []; sum = 0; total = 0 }

abbrev got : Wrapping.Request
got = record { method = codes "GET"; path = codes "/health" }

stack-Serves_example :
    Serves
      (codes "health")
      (λ h. h)
      no_time
      (codes "id")
      answering
      got
      (site 1)
      (answering got 1)
      (stack (codes "health") (λ h. h) no_time (codes "id") answering got (site 1) blank)
unfolding IsOrderly write_json
stack-Serves_example =
    stack-Serves (codes "health") (λ h. h) no_time (codes "id") answering got (site 1) blank refl tt

-- The panic goes out as 500.
panic_answered :
    (stack (codes "health") (λ h. h) no_time (codes "id") answering got (site 0) blank).1.sent
    ≡ some 500
unfolding root cors bytes_eq Wrapping.recover Wrapping.recover_ending Wrapping.logging
    Wrapping.log_ending Wrapping.metrics Wrapping.count_ending serve
panic_answered = refl
