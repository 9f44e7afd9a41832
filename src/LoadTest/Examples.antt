-- ===== src/LoadTest/Examples.antt =====
-- backend/tools/loadtest/main.go on a few requests.
use nyc_taxi_real_time_eta_p.Common.{ℕ, ◌+◌, ◌≤◌, ◌<◌, ◌≡◌, refl, List, [], ◌∷◌, some, arith, leb}
use nyc_taxi_real_time_eta_p.Common.Bytes.{codes, bytes_eq}
use nyc_taxi_real_time_eta_p.Common.Sorting.{count, sort_by}
use nyc_taxi_real_time_eta_p.LoadTest.{
  Result, empty_result, Outcome, answered, unanswered, run_request, run_level, percentile,
}
use nyc_taxi_real_time_eta_p.LoadTest.Measuring.{IsMeasured, run_level-counts, percentile-IsRank}

abbrev requests : List (Outcome × ℕ)
requests =
    (answered 200, 30)
    ∷ (unanswered (codes "refused"), 5)
    ∷ (answered 503, 9)
    ∷ (answered 204, 12)
    ∷ []

abbrev measured : Result
measured = run_level requests empty_result

reported :
    (measured.total_ok ≡ 2) × (measured.total_err ≡ 2) × (measured.first_err ≡ codes "refused")
unfolding run_level run_request bytes_eq
reported = (refl, refl, refl)

run_level-counts_example :
    IsMeasured requests measured × (measured.total_ok + measured.total_err ≡ 4)
run_level-counts_example = run_level-counts requests (omega arith)

abbrev three : Result
three = record empty_result { latencies = 30 ∷ 5 ∷ 9 ∷ [] }

-- The median.
abbrev half : ℕ → ℕ
half k = 1

median : percentile half three ≡ some 9
unfolding percentile sort_by
median = refl

percentile-IsRank_example :
    (x : ℕ) × (percentile half three ≡ some x)
    × (1 < count (λ d. leb d x) (30 ∷ 5 ∷ 9 ∷ []))
    × (3 ≤ 1 + count (λ d. leb x d) (30 ∷ 5 ∷ 9 ∷ []))
percentile-IsRank_example = percentile-IsRank half three (omega arith) (omega arith)
