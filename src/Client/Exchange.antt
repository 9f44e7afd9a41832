-- ===== src/Client/Exchange.antt =====
-- `doOnce` and `HealthCheck` of backend/internal/mlclient/client.go. net/http and JSON are parameters: what
-- becomes of a request, and what `json.Unmarshal` makes of a body.
use nyc_taxi_real_time_eta_p.Common.{ℕ, Bool, false, not, Option, none, some, ◌==◌, if◌then◌else◌}
use nyc_taxi_real_time_eta_p.Common.Bytes.{Bytes}
use nyc_taxi_real_time_eta_p.Common.Int.{ℤ}
use nyc_taxi_real_time_eta_p.Client.Predict.{Attempt, answered, failed, Trace, predict}

-- A request that cannot be built, one without a response, and a response with its status and its body,
-- none where that cannot be read.
pub data Exchange : Type 0 where
  unbuilt unanswered : Exchange
  response_of : ℕ → Option Bytes → Exchange

-- The errors of `doOnce`.
pub data Failure : Type 0 where
  build do_request read_body unmarshal : Failure
  bad_status : ℕ → Bytes → Failure

module _ {R : Type 0} (unmarshal_response : Bytes → Option R) where
  unfoldable pub do_once : Exchange → Attempt R Failure
  do_once unbuilt = failed build
  do_once unanswered = failed do_request
  do_once (response_of status none) = failed read_body
  do_once (response_of status (some body)) =
      if not (status == 200)
      then failed (bad_status status body)
      else elim (unmarshal_response body) [ none ↦ failed unmarshal | some r ↦ answered r ]

  -- `Predict` over the exchanges by the number of the attempt.
  unfoldable pub predict_over : (ℕ → Bool) → (ℕ → Exchange) → (ℕ → Bool) → ℤ → Trace R Failure
  unfolding do_once
  predict_over is_gone exchanges is_gone_waiting max_retries =
      predict
        (record {
          is_gone = is_gone;
          do_once = λ n. do_once (exchanges n);
          is_gone_waiting = is_gone_waiting;
        })
        max_retries

unfoldable pub health_check : Exchange → Bool
health_check unbuilt = false
health_check unanswered = false
health_check (response_of status body) = status == 200
