-- ===== src/LoadTest/Measuring.antt =====
-- What backend/tools/loadtest/main.go reports of a run.
use nyc_taxi_real_time_eta_p.Common.{
  ℕ, ◌+◌, ◌-◌, ◌≤◌, ◌<◌, ◌^◌, ◌≡◌, refl, sym, ap, ◌∙◌, inl, inr, Bool, false, ◌&&◌, not, List, [],
  ◌∷◌, ◌++◌, map, append_assoc, append-nil, some, arith, leb, ◌==◌, if◌then◌else◌, length,
  length-append, Bool-cases,
}
use nyc_taxi_real_time_eta_p.Common.Bytes.{Bytes, bytes_eq, bytes_eq_sound}
use nyc_taxi_real_time_eta_p.Common.Sorting.{
  count, count_le, count-concat, count-not, sort_by, length-sort_by, count-sort_by,
  sort_by-IsSorted, sorted_place,
}
use nyc_taxi_real_time_eta_p.LoadTest.{
  Result, empty_result, record_err, add_int64, count_status, record_request, Outcome, answered,
  unanswered, is_ok, status_of, run_request, run_level, percentile,
}

-- The counter of a status, 0 where it has none.
abbrev pub counted : ℕ → List (ℕ × ℕ) → ℕ
counted status [] = 0
counted status ((s, n) ∷ rest) = if s == status then n else counted status rest

abbrev or_first : Bytes → Bytes → Bytes
or_first a b = if bytes_eq a [] then b else a

abbrev error_of : Outcome × ℕ → Bytes
error_of (answered status, d) = []
error_of (unanswered err, d) = err

-- The first text that is not empty among the errors.
abbrev pub first_error : List (Outcome × ℕ) → Bytes
first_error [] = []
first_error (x ∷ xs) = or_first (error_of x) (first_error xs)

-- Whether a status from 200 to 299 came back.
abbrev pub is_success : Outcome → Bool
is_success (answered status) = leb 200 status && leb status 299
is_success (unanswered err) = false

is_ok_lem : (x : Outcome) → is_ok x ≡ is_success x
unfolding is_ok
is_ok_lem (answered status) = ground arith
is_ok_lem (unanswered err) = refl

-- What came back as the status, 0 for a connection error.
abbrev pub answer_of : Outcome → ℕ
answer_of (answered status) = status
answer_of (unanswered err) = 0

-- The record of a run of these requests.
abbrev pub IsMeasured : List (Outcome × ℕ) → Result → Type 0
IsMeasured xs r =
    (r.latencies ≡ map (λ x. x.1) xs)
    × (r.total_ok ≡ count (λ x. is_success x.0) xs)
    × (r.total_err ≡ count (λ x. not (is_success x.0)) xs)
    × ((status : ℕ) → counted status r.status_count ≡ count (λ x. answer_of x.0 == status) xs)
    × (r.first_err ≡ first_error xs)

counted-count_status :
    (status s : ℕ) (cs : List (ℕ × ℕ))
    → counted status cs + 1 < 2 ^ 63
    → counted status (count_status s cs) ≡ counted status cs + (if s == status then 1 else 0)
unfolding count_status
counted-count_status status s [] h = ground arith
counted-count_status status s ((t, n) ∷ cs) h = elim (Bool-cases (t == status)) [
  | inl e ↦ elim (Bool-cases (t == s)) [
    | inl f ↦ ground (arith, e, f, h)
    | inr f ↦ ground (arith, e, f, h)
  ]
  | inr e ↦
      let rest = counted-count_status status s cs (ground (arith, h, e)) in
      elim (Bool-cases (t == s)) [
        | inl f ↦ ground (arith, e, f, h)
        | inr f ↦ ground (arith, e, f, rest)
      ]
]

or_first-nil : (a : Bytes) → or_first a [] ≡ a
or_first-nil a = elim (Bool-cases (bytes_eq a [])) [
  | inl e ↦ rw e (sym (bytes_eq_sound a [] e))
  | inr e ↦ rw e refl
]

or_first_assoc : (a b c : Bytes) → or_first (or_first a b) c ≡ or_first a (or_first b c)
or_first_assoc a b c = elim (Bool-cases (bytes_eq a [])) [
  | inl e ↦ rw e refl
  | inr e ↦ rw e (rw e refl)
]

first_error-concat :
    (xs : List (Outcome × ℕ)) (x : Outcome × ℕ)
    → first_error (xs ++ (x ∷ [])) ≡ or_first (first_error xs) (error_of x)
unfolding bytes_eq
first_error-concat [] x = or_first-nil (error_of x)
first_error-concat (y ∷ xs) x =
    ap (or_first (error_of y)) (first_error-concat xs x)
    ∙ sym (or_first_assoc (error_of y) (first_error xs) (error_of x))

map-concat :
    (xs : List (Outcome × ℕ)) (x : Outcome × ℕ)
    → map (λ y. y.1) (xs ++ (x ∷ [])) ≡ map (λ y. y.1) xs ++ (x.1 ∷ [])
map-concat [] x = refl
map-concat (y ∷ xs) x = ap (λ r. y.1 ∷ r) (map-concat xs x)

-- The fields that one round leaves.
round_fields :
    (x : Outcome × ℕ) (r : Result)
    → let r' = run_request x r in
      (r'.latencies ≡ r.latencies ++ (x.1 ∷ []))
      × (r'.total_ok ≡ (if is_success x.0 then add_int64 r.total_ok else r.total_ok))
      × (r'.total_err ≡ (if is_success x.0 then r.total_err else add_int64 r.total_err))
      × (r'.status_count ≡ count_status (answer_of x.0) r.status_count)
      × (r'.first_err ≡ or_first r.first_err (error_of x))
unfolding run_request record_request record_err status_of
round_fields (answered status, d) r = (
  refl,
  ap (λ b. if b then add_int64 r.total_ok else r.total_ok) (is_ok_lem (answered status)),
  ap (λ b. if b then r.total_err else add_int64 r.total_err) (is_ok_lem (answered status)),
  refl,
  sym (or_first-nil r.first_err),
)
round_fields (unanswered err, d) r = (
  refl,
  ap (λ b. if b then add_int64 r.total_ok else r.total_ok) (is_ok_lem (unanswered err)),
  ap (λ b. if b then r.total_err else add_int64 r.total_err) (is_ok_lem (unanswered err)),
  refl,
  refl,
)

run_request-IsMeasured :
    (xs : List (Outcome × ℕ)) (x : Outcome × ℕ) (r : Result)
    → length xs + 1 < 2 ^ 63
    → IsMeasured xs r
    → IsMeasured (xs ++ (x ∷ [])) (run_request x r)
run_request-IsMeasured xs x r h (lat, oks, errs, sts, first) =
    let (lat', oks', errs', sts', first') = round_fields x r in
    let ok = λ (y : Outcome × ℕ). is_success y.0 in
    let bad = λ (y : Outcome × ℕ). not (is_success y.0) in
    (
      lat' ∙ ap (λ l. l ++ (x.1 ∷ [])) lat ∙ sym (map-concat xs x),
      ground (arith, h, oks, oks', count_le ok xs, count-concat ok xs x),
      ground (arith, h, errs, errs', count_le bad xs, count-concat bad xs x),
      λ status.
          let same = λ (y : Outcome × ℕ). answer_of y.0 == status in
          rw sts' (
            counted-count_status status (answer_of x.0) r.status_count
              (omega (arith, h, sts status, count_le same xs))
            ∙ ap (λ n. n + (if answer_of x.0 == status then 1 else 0)) (sts status)
            ∙ sym (count-concat same xs x)),
      first' ∙ ap (λ a. or_first a (error_of x)) first ∙ sym (first_error-concat xs x),
    )

run_level-IsMeasured :
    (ys xs : List (Outcome × ℕ)) (r : Result)
    → length xs + length ys < 2 ^ 63
    → IsMeasured xs r
    → IsMeasured (xs ++ ys) (run_level ys r)
unfolding run_level
run_level-IsMeasured [] xs r h m = rw (append-nil xs) m
run_level-IsMeasured (y ∷ ys) xs r h m = rw (append_assoc xs (y ∷ []) ys) at (
    run_level-IsMeasured ys (xs ++ (y ∷ [])) (run_request y r)
      (omega (arith, h, length-append xs (y ∷ [])))
      (run_request-IsMeasured xs y r (omega (arith, h)) m))

-- A run of fewer than 2^63 requests: `totalOK` counts those with a status from 200 to 299 and
-- `totalErr` the others, so that both together are the requests; the latencies are theirs; each
-- status is counted as often as it came, 0 for a connection error; the error that is kept is the
-- first.
pub run_level-counts :
    (xs : List (Outcome × ℕ))
    → length xs < 2 ^ 63
    → IsMeasured xs (run_level xs empty_result)
      × ((run_level xs empty_result).total_ok + (run_level xs empty_result).total_err ≡ length xs)
unfolding count
run_level-counts xs h =
    let m =
      run_level-IsMeasured xs [] empty_result (omega (arith, h))
        (refl, refl, refl, λ status. refl, refl) in
    (m, omega (arith, m.1, m.2, count-not (λ x. is_success x.0) xs))

-- The percentile of `p` of at least one request, where `p * float64(k)` of the last place `k` is cut to
-- a place up to `k`: the latency of one of them, such that at least that place and one more are not
-- above it, and those that are not below it make up the rest.
pub percentile-IsRank :
    (index : ℕ → ℕ) (r : Result)
    → let n = length r.latencies in
      0 < n
      → index (n - 1) ≤ n - 1
      → (x : ℕ) × (percentile index r ≡ some x)
        × (index (n - 1) < count (λ d. leb d x) r.latencies)
        × (n ≤ index (n - 1) + count (λ d. leb x d) r.latencies)
unfolding percentile
percentile-IsRank index r some_ h =
    let n = length-sort_by (λ d. d) r.latencies in
    let (x, at_x, below, above) =
      sorted_place (λ d. d) (sort_by (λ d. d) r.latencies) (index (length r.latencies - 1))
        (omega (arith, n, some_, h)) (sort_by-IsSorted (λ d. d) r.latencies) in
    (
      x,
      ground (arith, some_, at_x),
      omega (arith, below, count-sort_by (λ d. d) (λ d. leb d x) r.latencies),
      omega (arith, above, n, count-sort_by (λ d. d) (λ d. leb x d) r.latencies),
    )
