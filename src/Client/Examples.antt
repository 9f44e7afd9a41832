-- ===== src/Client/Examples.antt =====
-- backend/internal/mlclient/client.go in a concrete course of events.
use nyc_taxi_real_time_eta_p.Common.{
  ℕ, ◌≤◌, ◌<◌, ◌≡◌, refl, false, [], ◌∷◌, Option, none, some, arith, leb, if◌then◌else◌,
}
use nyc_taxi_real_time_eta_p.Common.Int.{pos}
use nyc_taxi_real_time_eta_p.Client.Predict.{
  Course, answered, failed, response, first_backoff, round, attempts_loop, predict,
}
use nyc_taxi_real_time_eta_p.Common.Bytes.{Bytes, codes}
use nyc_taxi_real_time_eta_p.Client.Exchange.{Exchange, response_of, do_once, predict_over}
use nyc_taxi_real_time_eta_p.Client.Answering.{GivesNone, Tells, predict_over-Tells}
use nyc_taxi_real_time_eta_p.Client.Retrying.{IsRetry, predict-IsRetry}

-- Two failures, then an answer; nobody cancels.
abbrev third_time : Course ℕ ℕ
third_time = record {
  is_gone = λ n. false;
  do_once = λ n. if leb n 2 then failed n else answered 42;
  is_gone_waiting = λ n. false;
}

third_time_trace :
    predict third_time (pos 5)
    ≡ record { result = response 42; calls = 3; waits = 100000000 ∷ 200000000 ∷ [] }
unfolding predict attempts_loop round
third_time_trace = refl

predict-IsRetry_example :
    IsRetry third_time (pos 3) 3 1 first_backoff none (predict third_time (pos 3))
predict-IsRetry_example = predict-IsRetry third_time 3 (omega arith)

-- The service is busy, then answers.
abbrev busy_first : ℕ → Exchange
busy_first n = if leb n 1 then response_of 503 none else response_of 200 (some (codes "ok"))

abbrev any_body : Bytes → Option Bytes
any_body body = some body

predict_over-Tells_example :
    let t = predict_over any_body (λ n. false) busy_first (λ n. false) (pos 3) in
    (t.calls ≤ 3)
    × ((j : ℕ) → 1 ≤ j → j < t.calls → GivesNone any_body (busy_first j))
    × Tells any_body busy_first 3 t.calls t.result
predict_over-Tells_example =
    predict_over-Tells any_body (λ n. false) (λ n. false) busy_first 3 (omega arith)

second_answer :
    predict_over any_body (λ n. false) busy_first (λ n. false) (pos 3)
    ≡ record { result = response (codes "ok"); calls = 2; waits = 100000000 ∷ [] }
unfolding predict_over predict attempts_loop round do_once
second_answer = refl
