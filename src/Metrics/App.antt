-- ===== src/Metrics/App.antt =====
-- backend/internal/metrics/app_metrics.go: the metrics of the service, and their registration.
use nyc_taxi_real_time_eta_p.Common.{ℕ, [], ◌∷◌}
use nyc_taxi_real_time_eta_p.Common.Bytes.{codes}
use nyc_taxi_real_time_eta_p.Metrics.Histogram.{Children, Histogram}
use nyc_taxi_real_time_eta_p.Metrics.Exposition.{
  Gauge, counter, counter_vec, gauge, histogram, histogram_vec, Registry, register,
}

-- `App`. The vectors' children come to be on their first use.
pub record App (S F : Type 0) : Type 0 where
  pub http_requests_total : Children ℕ
  pub http_request_duration : Children (Histogram F)
  pub prediction_requests_total : Children ℕ
  pub prediction_latency : Histogram F
  pub prediction_errors_total : ℕ
  pub cache_hits_total : ℕ
  pub cache_misses_total : ℕ
  pub queue_length : Gauge S F
  pub worker_busy : Gauge S F
  pub active_trips : Gauge S F

module _ {S F : Type 0} where
  -- The registry that the registrations of `App` leave, the last one outermost.
  unfoldable pub app_registry : App S F → Registry S F
  unfolding register
  app_registry a =
      register (codes "active_trips")
        (codes "Current number of trips that are PENDING or DISPATCHED.") (gauge a.active_trips)
        (register (codes "worker_busy")
          (codes "Current number of prediction workers actively processing a job.")
          (gauge a.worker_busy)
          (register (codes "queue_length")
            (codes "Current number of prediction jobs waiting in the queue.") (gauge a.queue_length)
            (register (codes "cache_misses_total") (codes "Total prediction cache misses.")
              (counter a.cache_misses_total)
              (register (codes "cache_hits_total") (codes "Total prediction cache hits.")
                (counter a.cache_hits_total)
                (register (codes "prediction_errors_total")
                  (codes
                    "Total predictions that failed (ML service error, timeout, retries exhausted).")
                  (counter a.prediction_errors_total)
                  (register (codes "prediction_latency_seconds")
                    (codes "Latency of a worker's call to the ML service, in seconds.")
                    (histogram a.prediction_latency)
                    (register (codes "prediction_requests_total")
                      (codes "Total prediction requests, by cache hit/miss.")
                      (counter_vec (codes "cache" ∷ []) a.prediction_requests_total)
                      (register (codes "http_request_duration_seconds")
                        (codes "HTTP request latency in seconds, by route.")
                        (histogram_vec (codes "route" ∷ []) a.http_request_duration)
                        (register (codes "http_requests_total")
                          (codes "Total HTTP requests, by route/method/status.")
                          (counter_vec (codes "route" ∷ codes "method" ∷ codes "status" ∷ [])
                            a.http_requests_total)
                          [])))))))))
