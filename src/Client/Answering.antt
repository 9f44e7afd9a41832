-- ===== src/Client/Answering.antt =====
-- What `Predict` of backend/internal/mlclient/client.go returns of what the service answers.
use nyc_taxi_real_time_eta_p.Common.{
  ℕ, zero, suc, ◌+◌, ◌-◌, ◌≤◌, ◌<◌, ◌≡◌, ◌≢◌, ap, ◌∙◌, inl, inr, Bool, false, Option, none, some,
  arith, ltb, ◌==◌, Bool-cases, Option-cases,
}
use nyc_taxi_real_time_eta_p.Common.Bytes.{Bytes}
use nyc_taxi_real_time_eta_p.Common.Int.{pos}
use nyc_taxi_real_time_eta_p.Client.Predict.{
  answered, failed, Course, Result, response, cancelled, unavailable,
}
use nyc_taxi_real_time_eta_p.Client.Retrying.{EndsAs, predict-IsRetry}
use nyc_taxi_real_time_eta_p.Client.Exchange.{
  Exchange, unbuilt, unanswered, response_of, Failure, do_once, predict_over,
}

module _ {R : Type 0} (unmarshal_response : Bytes → Option R) where
  -- The service answered 200 with a body that decodes to a response.
  abbrev pub Gives : Exchange → R → Type 0
  Gives x r =
      (body : Bytes) × (x ≡ response_of 200 (some body)) × (unmarshal_response body ≡ some r)

  abbrev pub GivesNone : Exchange → Type 0
  GivesNone x =
      (r : R) (body : Bytes) → x ≡ response_of 200 (some body) → unmarshal_response body ≢ some r

  do_once-Gives : (x : Exchange) (r : R) → do_once unmarshal_response x ≡ answered r → Gives x r
  unfolding do_once
  do_once-Gives unbuilt r e = cc
  do_once-Gives unanswered r e = cc
  do_once-Gives (response_of status none) r e = cc
  do_once-Gives (response_of status (some body)) r e = elim (Bool-cases (status == 200)) [
    | inr other ↦ cc
    | inl good ↦ elim (Option-cases (unmarshal_response body)) [
      | inl f ↦ let e' = rw (good, f, do_once) at e in cc
      | inr (s, f) ↦
          let e' = rw (good, f, do_once) at e in
          let same : status ≡ 200 = ground (arith, good) in
          (body, ap (λ n. response_of n (some body)) same, f ∙ cc)
    ]
  ]

  do_once-GivesNone :
      (x : Exchange) (e : Failure) → do_once unmarshal_response x ≡ failed e → GivesNone x
  unfolding do_once
  do_once-GivesNone x e h r body q f = let h' = rw (f, do_once) at (rw q at h) in cc

  -- What the result of a call says of the exchanges, the first of them having the number 1.
  abbrev pub Tells : (ℕ → Exchange) → ℕ → ℕ → Result R Failure → Type 0
  Tells exchanges n calls (response r) = (1 ≤ calls) × Gives (exchanges calls) r
  Tells exchanges n calls cancelled = calls < n
  Tells exchanges n calls (unavailable k e) =
      (k ≡ pos n) × (calls ≡ n) × ((j : ℕ) → 1 ≤ j → j ≤ n → GivesNone (exchanges j))

  module _ (is_gone is_gone_waiting : ℕ → Bool) (exchanges : ℕ → Exchange) where
    abbrev course : Course R Failure
    course = record {
      is_gone = is_gone;
      do_once = λ n. do_once unmarshal_response (exchanges n);
      is_gone_waiting = is_gone_waiting;
    }

    abbrev Fails : ℕ → Type 0
    Fails j = (e : Failure) × (do_once unmarshal_response (exchanges j) ≡ failed e)

    earlier :
        (calls : ℕ)
        → ((i : ℕ) → i + 1 < calls → (is_gone (1 + i) ≡ false) × Fails (1 + i))
        → (j : ℕ) → 1 ≤ j
        → j < calls
        → GivesNone (exchanges j)
    earlier calls before zero some_ h = absurd (omega (arith, some_))
    earlier calls before (suc i) some_ h =
        let (here, (e, f)) = before i (omega (arith, h)) in
        do_once-GivesNone (exchanges (suc i)) e
          (ap (λ k. do_once unmarshal_response (exchanges k)) (omega arith) ∙ f)

    ends-Tells :
        (n calls : ℕ) (result : Result R Failure)
        → ((i : ℕ) → i + 1 < calls → (is_gone (1 + i) ≡ false) × Fails (1 + i))
        → EndsAs course (pos n) n 1 none calls result
        → Tells exchanges n calls result
    ends-Tells n calls (response r) before (some_, e) = (
      some_,
      do_once-Gives (exchanges calls) r
          (ap (λ k. do_once unmarshal_response (exchanges k)) (omega (arith, some_)) ∙ e),
    )
    ends-Tells n calls cancelled before (early, why) = early
    ends-Tells n calls (unavailable k e) before (same, all, last) = (
      same,
      all,
      λ j some_ h. elim (Bool-cases (ltb j n)) [
        | inl less ↦ earlier calls before j some_ (ground (arith, less, all))
        | inr most ↦ elim last [
          | inl (none_, q) ↦ absurd (omega (arith, none_, some_, h))
          | inr (x, f, q) ↦
              let here : j ≡ 1 + n - 1 = ground (arith, most, h) in
              do_once-GivesNone (exchanges j) x
                (ap (λ k. do_once unmarshal_response (exchanges k)) here ∙ f)
        ]
      ],
    )

  -- `Predict` with at most 37 retries: it makes at most so many requests, and stops at the first that
  -- the service answers by 200 with a body that decodes, whose response it returns; it reports the
  -- service as unavailable only after all retries, none of which was answered so.
  pub predict_over-Tells :
      (is_gone is_gone_waiting : ℕ → Bool) (exchanges : ℕ → Exchange) (n : ℕ)
      → n ≤ 37
      → let t = predict_over unmarshal_response is_gone exchanges is_gone_waiting (pos n) in
        (t.calls ≤ n)
        × ((j : ℕ) → 1 ≤ j → j < t.calls → GivesNone (exchanges j))
        × Tells exchanges n t.calls t.result
  unfolding predict_over
  predict_over-Tells is_gone is_gone_waiting exchanges n h =
      let v = predict-IsRetry (course is_gone is_gone_waiting exchanges) n h in
      (
        v.bounded,
        earlier is_gone is_gone_waiting exchanges _ v.retried,
        ends-Tells is_gone is_gone_waiting exchanges n _ _ v.retried v.outcome,
      )
