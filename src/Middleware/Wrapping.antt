-- ===== src/Middleware/Wrapping.antt =====
-- backend/internal/middleware/middleware.go and metrics.go: the wrappers of a handler, and a response
-- writer of package net/http with the status recorders that are laid round it.
use nyc_taxi_real_time_eta_p.Common.{ℕ, List, [], ◌∷◌, ◌++◌, map, Option, none, some, if◌then◌else◌}
use nyc_taxi_real_time_eta_p.Common.Bytes.{Bytes, codes, bytes_eq}
use nyc_taxi_real_time_eta_p.Redis.Decimal.{format_decimal}
use nyc_taxi_real_time_eta_p.Metrics.Histogram.{Children, Histogram, counter_add, with_label_values}

pub record Request : Type 0 where
  pub method : Bytes
  pub path : Bytes

-- The header map as the calls of `Set` made it, the status that went out, the body, and the status of
-- each recorder, the innermost first.
pub record Writer : Type 0 where
  pub header : List (Bytes × Bytes)
  pub sent : Option ℕ
  pub body : Bytes
  pub recorded : List ℕ

-- How a handler ends.
pub data Ending : Type 0 where
  returned panics : Ending

abbrev pub or_sent : ℕ → Option ℕ → Option ℕ
or_sent code none = some code
or_sent code (some c) = some c

unfoldable pub set_header : Bytes → Bytes → Writer → Writer
set_header k v w = record w { header = w.header ++ ((k, v) ∷ []) }

-- `WriteHeader` of the recorders, and of net/http at the bottom, where the first call counts.
unfoldable pub write_header : ℕ → Writer → Writer
write_header code w = record w { sent = or_sent code w.sent; recorded = map (λ c. code) w.recorded }

-- `Write` sends the status 200 where none was sent; the recorders do not see it.
unfoldable pub write : Bytes → Writer → Writer
write b w = record w { sent = or_sent 200 w.sent; body = w.body ++ b }

-- A recorder round a writer, and its status at the end.
unfoldable pub wrap : Writer → Writer
wrap w = record w { recorded = 200 ∷ w.recorded }

unfoldable pub unwrap : Writer → Writer
unwrap w = record w { recorded = elim w.recorded [ [] ↦ [] | c ∷ cs ↦ cs ] }

unfoldable pub recorder_status : Writer → ℕ
recorder_status w = elim w.recorded [ [] ↦ 200 | c ∷ cs ↦ c ]

pub record LogEntry : Type 0 where
  pub request_id : Bytes
  pub method : Bytes
  pub path : Bytes
  pub status : ℕ

-- The state of the handler behind the wrappers, the log and the metrics.
pub record Site (S F : Type 0) : Type 0 where
  pub app : S
  pub logged : List LogEntry
  pub recovered : List Bytes
  pub requests_total : Children ℕ
  pub request_duration : Children (Histogram F)

module _ (S F : Type 0) where
  abbrev pub Handler : Type 0
  Handler = Request → Site S F → Writer → Site S F × Writer × Ending

abbrev pub internal_error : Bytes
internal_error = codes "{\"error\":\"internal server error\"}"

unfoldable pub allow_origin : Writer → Writer
unfolding set_header
allow_origin w = set_header (codes "Access-Control-Allow-Headers") (codes "Content-Type") (
    set_header (codes "Access-Control-Allow-Methods") (codes "GET, POST, OPTIONS")
      (set_header (codes "Access-Control-Allow-Origin") (codes "*") w))

module _ {S F : Type 0} where
  -- `observe` is `Observe` of the time that the request took, `fresh` the new child of a route.
  unfoldable pub count_request :
      Bytes → (Histogram F → Histogram F) → Histogram F → Request → ℕ → Site S F → Site S F
  count_request route observe fresh r status s = record s {
    requests_total =
        with_label_values 0 (route ∷ r.method ∷ format_decimal status ∷ []) (counter_add 1)
          s.requests_total;
    request_duration = with_label_values fresh (route ∷ []) observe s.request_duration;
  }

  -- What follows the call of the next handler in `Metrics`, where it returns.
  unfoldable pub count_ending :
      Bytes
      → (Histogram F → Histogram F)
      → Histogram F
      → Request
      → Site S F × Writer × Ending
      → Site S F × Writer × Ending
  unfolding unwrap recorder_status
  count_ending route observe fresh r (s, w, returned) =
      (count_request route observe fresh r (recorder_status w) s, unwrap w, returned)
  count_ending route observe fresh r (s, w, panics) = (s, unwrap w, panics)

  unfoldable pub metrics :
      Bytes → (Histogram F → Histogram F) → Histogram F → Handler S F → Handler S F
  unfolding wrap
  metrics route observe fresh next r s w = count_ending route observe fresh r (next r s (wrap w))

  -- The same of `Logging`; `request_id` is what `idgen.NewID` returns.
  unfoldable pub log_ending :
      Bytes → Request → Site S F × Writer × Ending → Site S F × Writer × Ending
  unfolding unwrap recorder_status
  log_ending request_id r (s, w, returned) = (
    record s {
      logged =
          s.logged
          ++ (record {
            request_id = request_id;
            method = r.method;
            path = r.path;
            status = recorder_status w;
          }
              ∷ []);
    },
    unwrap w,
    returned,
  )
  log_ending request_id r (s, w, panics) = (s, unwrap w, panics)

  unfoldable pub logging : Bytes → Handler S F → Handler S F
  unfolding set_header wrap
  logging request_id next r s w =
      log_ending request_id r (next r s (wrap (set_header (codes "X-Request-ID") request_id w)))

  -- The deferred function of `Recover`.
  unfoldable pub recover_ending : Request → Site S F × Writer × Ending → Site S F × Writer × Ending
  unfolding set_header write_header write
  recover_ending r (s, w, returned) = (s, w, returned)
  recover_ending r (s, w, panics) = (
    record s { recovered = s.recovered ++ (r.path ∷ []) },
    write internal_error
        (write_header 500 (set_header (codes "Content-Type") (codes "application/json") w)),
    returned,
  )

  unfoldable pub recover : Handler S F → Handler S F
  recover next r s w = recover_ending r (next r s w)

  unfoldable pub cors : Handler S F → Handler S F
  unfolding allow_origin write_header
  cors next r s w =
      let w' = allow_origin w in
      if bytes_eq r.method (codes "OPTIONS")
      then (s, write_header 204 w', returned)
      else next r s w'

  -- The order of cmd/server/main.go: CORS outermost, then Recover, then Logging.
  unfoldable pub root : Bytes → Handler S F → Handler S F
  root request_id next = cors (recover (logging request_id next))
