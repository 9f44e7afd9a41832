-- ===== src/Metrics/Examples.antt =====
-- backend/internal/metrics/metrics.go on concrete observations and labels.
use mathlib.Core.List.{Perm}
use nyc_taxi_real_time_eta_p.Common.{
  ℕ, ◌+◌, ◌≤◌, ◌≡◌, refl, [], ◌∷◌, ◌++◌, map, none, some, arith, length, All,
}
use nyc_taxi_real_time_eta_p.Common.Bytes.{codes}
use nyc_taxi_real_time_eta_p.Geo.Examples.{whole_order}
use nyc_taxi_real_time_eta_p.Metrics.Histogram.{Children, split_values, new_histogram, observe_all}
use nyc_taxi_real_time_eta_p.Redis.Decimal.{format_decimal}
use nyc_taxi_real_time_eta_p.Metrics.App.{App, app_registry}
use nyc_taxi_real_time_eta_p.Metrics.Exposition.{
  Format, format_bound, label_string, join_parts, gather,
}
use nyc_taxi_real_time_eta_p.Metrics.Scraping.{page, app-HasNames, gather-page}
use nyc_taxi_real_time_eta_p.Metrics.Observing.{at_most, IsAscending, IsSorted, observe_all-counts}

abbrev add : ℕ → ℕ → ℕ
add a b = a + b

observe_all-counts_example :
    let h =
      observe_all whole_order add 0 (7 ∷ 2 ∷ []) (new_histogram whole_order add 0 (5 ∷ 1 ∷ [])) in
    Perm h.buckets (5 ∷ 1 ∷ [])
    × IsSorted whole_order add 0 h.buckets
    × (h.counts ≡ map (λ b. at_most whole_order add 0 b (7 ∷ 2 ∷ [])) h.buckets)
    × IsAscending whole_order add 0 h.counts
    × All (λ c. c ≤ h.total) h.counts
    × (h.total ≡ length {A = ℕ} (7 ∷ 2 ∷ []))
observe_all-counts_example =
    observe_all-counts whole_order add 0 (5 ∷ 1 ∷ []) (7 ∷ 2 ∷ []) (omega arith)

abbrev hits : Children ℕ
hits = (codes "hit", 3) ∷ []

-- Whole numbers in place of float64, and quotes round texts that need no escape.
abbrev whole_format : Format ℕ
whole_format = record {
  general = format_decimal;
  fixed = λ n. format_decimal n ++ codes ".000000";
  quote = λ s. 34 ∷ (s ++ (34 ∷ []));
}

bound_of_ten : format_bound whole_format 10 ≡ codes "10"
unfolding format_bound format_decimal
bound_of_ten = refl

missing_value :
    label_string whole_format (codes "route" ∷ codes "method" ∷ []) (codes "health")
    ≡ codes "{route=\"health\",method=\"\"}"
unfolding label_string split_values join_parts
missing_value = refl

app : App ℕ ℕ
app = record {
  http_requests_total = [];
  http_request_duration =
      (
        codes "health",
        observe_all whole_order add 0 (7 ∷ []) (new_histogram whole_order add 0 (5 ∷ [])),
      )
      ∷ [];
  prediction_requests_total = hits;
  prediction_latency = new_histogram whole_order add 0 (5 ∷ []);
  prediction_errors_total = 1;
  cache_hits_total = 3;
  cache_misses_total = 0;
  queue_length = record { number = 0; fn = some (λ s. s) };
  worker_busy = record { number = 0; fn = none };
  active_trips = record { number = 0; fn = none };
}

gather-page_example :
    gather whole_format 4 (app_registry app) ≡ page whole_format 4 (app_registry app)
gather-page_example =
    gather-page whole_format 4 (app_registry app) (app-HasNames whole_format 4 app)
