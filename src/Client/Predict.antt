-- ===== src/Client/Predict.antt =====
-- `Predict` of backend/internal/mlclient/client.go. HTTP, JSON and `context` are parameters: what
-- `doOnce` returns for the n-th time, and where the caller's context is found to be done. Durations
-- are the 64-bit words of nanoseconds that Go computes with.
use nyc_taxi_real_time_eta_p.Common.{
  ℕ, zero, suc, ◌+◌, ◌*◌, ◌%◌, ◌^◌, Bool, List, [], ◌∷◌, Option, none, some, if◌then◌else◌,
}
use nyc_taxi_real_time_eta_p.Common.Int.{ℤ, pos, negsuc, ltb_ℤ}

-- What a call of `doOnce` comes to.
pub data Attempt (R E : Type 0) : Type 0 where
  answered : R → Attempt R E
  failed : E → Attempt R E

-- By the number of the attempt: whether the context is done before it, what `doOnce` returns, and
-- whether the wait behind it ends by the context.
pub record Course (R E : Type 0) : Type 0 where
  pub is_gone : ℕ → Bool
  pub do_once : ℕ → Attempt R E
  pub is_gone_waiting : ℕ → Bool

pub data Result (R E : Type 0) : Type 0 where
  response : R → Result R E
  -- The context's error.
  cancelled : Result R E
  -- `ErrMLServiceUnavailable` with its attempts and its last error.
  unavailable : ℤ → Option E → Result R E

-- What a call did: its result, how often it called `doOnce`, and the waits that it began.
pub record Trace (R E : Type 0) : Type 0 where
  pub result : Result R E
  pub calls : ℕ
  pub waits : List ℕ

-- 100 ms.
abbrev pub first_backoff : ℕ
first_backoff = 100000000

module _ {R E : Type 0} where
  abbrev pub after_call : Trace R E → Trace R E
  after_call t = record t { calls = t.calls + 1 }

  abbrev pub after_wait : ℕ → Trace R E → Trace R E
  after_wait backoff t = record t { waits = backoff ∷ t.waits }

  abbrev pub ends_with : Result R E → Trace R E
  ends_with r = record { result = r; calls = 0; waits = [] }

  -- One round of the loop; `again` and `last` are what follows it with and without a wait.
  unfoldable pub round : Course R E → ℤ → ℕ → ℕ → (E → Trace R E) → (E → Trace R E) → Trace R E
  round c max_retries attempt backoff again last =
      if c.is_gone attempt then ends_with cancelled else elim (c.do_once attempt) [
        | answered r ↦ after_call (ends_with (response r))
        | failed e ↦ after_call (
            if ltb_ℤ (pos attempt) max_retries
            then after_wait backoff
                (if c.is_gone_waiting attempt then ends_with cancelled else again e)
            else last e)
      ]

  -- The loop from `attempt` on, with the last error so far and the rounds that are left until
  -- `attempt` exceeds `max_retries`.
  unfoldable pub attempts_loop : Course R E → ℤ → ℕ → ℕ → ℕ → Option E → Trace R E
  attempts_loop c max_retries zero attempt backoff last_err =
      ends_with (unavailable max_retries last_err)
  attempts_loop c max_retries (suc rounds) attempt backoff last_err =
      round c max_retries attempt backoff
        (λ e. attempts_loop c max_retries rounds (attempt + 1) (backoff * 2 % 2 ^ 64) (some e))
        (λ e. attempts_loop c max_retries rounds (attempt + 1) backoff (some e))

  -- `Predict` behind `json.Marshal`. A number of retries below 1 makes no attempt.
  unfoldable pub predict : Course R E → ℤ → Trace R E
  predict c (pos n) = attempts_loop c (pos n) n 1 first_backoff none
  predict c (negsuc n) = attempts_loop c (negsuc n) 0 1 first_backoff none
