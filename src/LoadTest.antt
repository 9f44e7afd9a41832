-- ===== src/LoadTest.antt =====
-- backend/tools/loadtest/main.go: what the load test records of its requests, and its percentiles.
-- Latencies are numbers; what a request comes to is an argument. An int64 is its 64-bit word, which is its
-- value below 2^63.
mod Measuring
mod Examples
use nyc_taxi_real_time_eta_p.Common.{
  ℕ, ◌+◌, ◌-◌, ◌%◌, ◌^◌, Bool, true, false, ◌&&◌, List, [], ◌∷◌, ◌++◌, Option, none, some, leb, ltb,
  ◌==◌, if◌then◌else◌, length, get_elem?,
}
use nyc_taxi_real_time_eta_p.Common.Bytes.{Bytes, bytes_eq}
use nyc_taxi_real_time_eta_p.Common.Sorting.{sort_by}

-- `firstErr` is empty until an error is seen; the two counters are int64 that never get negative before
-- 2^63, given by their words.
pub record Result : Type 0 where
  pub latencies : List ℕ
  pub total_ok : ℕ
  pub total_err : ℕ
  pub status_count : List (ℕ × ℕ)
  pub first_err : Bytes

abbrev pub empty_result : Result
empty_result = record {
  latencies = [];
  total_ok = 0;
  total_err = 0;
  status_count = [];
  first_err = [];
}

unfoldable pub record_err : Bytes → Result → Result
record_err err r = record r { first_err = if bytes_eq r.first_err [] then err else r.first_err }

abbrev pub add_int64 : ℕ → ℕ
add_int64 n = (n + 1) % 2 ^ 64

-- `LoadOrStore` of a new counter, and `AddInt64` on it.
unfoldable pub count_status : ℕ → List (ℕ × ℕ) → List (ℕ × ℕ)
count_status status [] = (status, add_int64 0) ∷ []
count_status status ((s, n) ∷ rest) =
    if s == status then (s, add_int64 n) ∷ rest else (s, n) ∷ count_status status rest

-- `record`.
unfoldable pub record_request : ℕ → ℕ → Bool → Result → Result
unfolding count_status
record_request status d ok r = record r {
  latencies = r.latencies ++ (d ∷ []);
  total_ok = if ok then add_int64 r.total_ok else r.total_ok;
  total_err = if ok then r.total_err else add_int64 r.total_err;
  status_count = count_status status r.status_count;
}

-- What `doRequest` returns: a status, or an error with its text.
pub data Outcome : Type 0 where
  answered : ℕ → Outcome
  unanswered : Bytes → Outcome

unfoldable pub is_ok : Outcome → Bool
is_ok (answered status) = leb 200 status && ltb status 300
is_ok (unanswered err) = false

-- The status that is recorded.
unfoldable pub status_of : Outcome → ℕ
status_of (answered status) = status
status_of (unanswered err) = 0

-- The end of one round of `runLevel`'s goroutines.
unfoldable pub run_request : Outcome × ℕ → Result → Result
unfolding record_err record_request is_ok status_of
run_request (answered status, elapsed) r = record_request status elapsed (is_ok (answered status)) r
run_request (unanswered err, elapsed) r =
    record_request 0 elapsed (is_ok (unanswered err)) (record_err err r)

-- `runLevel`: the rounds of all goroutines in the order in which they are recorded.
unfoldable pub run_level : List (Outcome × ℕ) → Result → Result
unfolding run_request
run_level [] r = r
run_level (x ∷ xs) r = run_level xs (run_request x r)

-- `percentile`; `index` is `int(p * float64(k))` for the p at hand, none the panic of an index that is
-- out of range.
unfoldable pub percentile : (ℕ → ℕ) → Result → Option ℕ
unfolding sort_by
percentile index r =
    if length r.latencies == 0
    then some 0
    else get_elem? (sort_by (λ d. d) r.latencies) (index (length r.latencies - 1))
