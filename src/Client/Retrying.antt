-- ===== src/Client/Retrying.antt =====
-- What `Predict` of backend/internal/mlclient/client.go does in every course of events.
use nyc_taxi_real_time_eta_p.Common.{
  ℕ, zero, suc, ◌+◌, ◌-◌, ◌*◌, ◌%◌, ◌^◌, ◌≤◌, ◌<◌, ◌≡◌, refl, ap, ◌∙◌, ◌⊎◌, inl, inr, Bool, true,
  false, ◌&&◌, List, [], ◌∷◌, Option, none, some, arith, ltb, length, Bool-cases,
}
use nyc_taxi_real_time_eta_p.Common.Int.{ℤ, pos, ltb_ℤ}
use nyc_taxi_real_time_eta_p.Client.Predict.{
  Attempt, answered, failed, Course, Result, response, cancelled, unavailable, Trace, first_backoff,
  after_call, after_wait, ends_with, round, attempts_loop, predict,
}

Attempt-cases :
    {R E : Type 0} (x : Attempt R E) → ((r : R) × (x ≡ answered r)) ⊎ ((e : E) × (x ≡ failed e))
Attempt-cases (answered r) = inl (r, refl)
Attempt-cases (failed e) = inr (e, refl)

-- Waits that double, from `b` on.
unfoldable pub doubling : ℕ → ℕ → List ℕ
doubling b zero = []
doubling b (suc n) = b ∷ doubling (b * 2) n

-- Whether `b` may double `n` times within 64 bits.
unfoldable pub fits : ℕ → ℕ → Bool
fits b zero = ltb b (2 ^ 64)
fits b (suc n) = ltb b (2 ^ 64) && fits (b * 2) n

fits_fewer : (b n k : ℕ) → k ≤ n → fits b n ≡ true → fits b k ≡ true
unfolding fits
fits_fewer b zero zero h f = f
fits_fewer b (suc n) zero h f = ground arith
fits_fewer b zero (suc k) h f = absurd (omega (arith, h))
fits_fewer b (suc n) (suc k) h f = ground (arith, fits_fewer (b * 2) n k)

fits_now : (b n : ℕ) → fits b n ≡ true → b < 2 ^ 64
unfolding fits
fits_now b zero f = ground arith
fits_now b (suc n) f = ground arith

fits_next : (b n : ℕ) → fits b (suc n) ≡ true → fits (b * 2) n ≡ true
unfolding fits
fits_next b n f = ground arith

first_backoff-fits : fits first_backoff 37 ≡ true
unfolding fits
first_backoff-fits = refl

module _ {R E : Type 0} (c : Course R E) where
  -- The end of a call of at most `rounds` attempts, `a` the first of them, that made `calls` of them.
  abbrev pub EndsAs : ℤ → ℕ → ℕ → Option E → ℕ → Result R E → Type 0
  EndsAs m rounds a le calls (response r) = (1 ≤ calls) × (c.do_once (a + calls - 1) ≡ answered r)
  EndsAs m rounds a le calls cancelled =
      (calls < rounds)
      × ((c.is_gone (a + calls) ≡ true)
          ⊎ ((1 ≤ calls) × (c.is_gone_waiting (a + calls - 1) ≡ true)))
  EndsAs m rounds a le calls (unavailable k e) =
      (k ≡ m)
      × (calls ≡ rounds)
      × (((rounds ≡ 0) × (e ≡ le))
          ⊎ ((x : E) × (c.do_once (a + rounds - 1) ≡ failed x) × (e ≡ some x)))

  pub record IsRetry (m : ℤ) (rounds a b : ℕ) (le : Option E) (t : Trace R E) : Type 0 where
    pub bounded : t.calls ≤ rounds
    -- Every attempt but the last failed, with a context that was not done.
    pub retried :
        (i : ℕ)
        → i + 1 < t.calls
        → (c.is_gone (a + i) ≡ false) × ((e : E) × (c.do_once (a + i) ≡ failed e))
    -- A wait between any two attempts, at most one behind the last, and each twice the one before.
    pub waited : t.waits ≡ doubling b (length t.waits)
    pub spaced : (length t.waits ≤ t.calls) × (t.calls ≤ length t.waits + 1)
    pub outcome : EndsAs m rounds a le t.calls t.result

  -- The ways of one round.
  data Rounds (m : ℤ) (a b : ℕ) (again last : E → Trace R E) (t : Trace R E) : Type 0 where
    leaves : c.is_gone a ≡ true → t ≡ ends_with cancelled → Rounds m a b again last t
    answers :
        (r : R)
        → c.do_once a ≡ answered r
        → t ≡ after_call (ends_with (response r))
        → Rounds m a b again last t
    gives_up :
        (e : E)
        → c.is_gone a ≡ false
        → c.do_once a ≡ failed e
        → ltb_ℤ (pos a) m ≡ false
        → t ≡ after_call (last e)
        → Rounds m a b again last t
    leaves_waiting :
        (e : E)
        → ltb_ℤ (pos a) m ≡ true
        → c.is_gone_waiting a ≡ true
        → t ≡ after_call (after_wait b (ends_with cancelled))
        → Rounds m a b again last t
    retries :
        (e : E)
        → c.is_gone a ≡ false
        → c.do_once a ≡ failed e
        → ltb_ℤ (pos a) m ≡ true
        → t ≡ after_call (after_wait b (again e))
        → Rounds m a b again last t

  round-Rounds :
      (m : ℤ) (a b : ℕ) (again last : E → Trace R E)
      → Rounds m a b again last (round c m a b again last)
  unfolding round
  round-Rounds m a b again last = elim (Bool-cases (c.is_gone a)) [
    | inl gone ↦ leaves gone (rw (gone, round))
    | inr here ↦ elim (Attempt-cases (c.do_once a)) [
      | inl (r, e) ↦ answers r e (rw (here, round) (rw e))
      | inr (x, e) ↦ elim (Bool-cases (ltb_ℤ (pos a) m)) [
        | inr done ↦ gives_up x here e done (rw (here, round) (rw e (rw done)))
        | inl more ↦ elim (Bool-cases (c.is_gone_waiting a)) [
          | inl left ↦ leaves_waiting x more left (rw (here, round) (rw e (rw more (rw left))))
          | inr stays ↦ retries x here e more (rw (here, round) (rw e (rw more (rw stays))))
        ]
      ]
    ]
  ]

  -- One failed attempt before a call.
  EndsAs-before :
      (m : ℤ) (n a : ℕ) (le : Option E) (x : E) (k : ℕ) (r : Result R E)
      → c.do_once a ≡ failed x
      → EndsAs m n (a + 1) (some x) k r
      → EndsAs m (suc n) a le (k + 1) r
  EndsAs-before m n a le x k (response r) e (some_call, done) =
      (omega arith, ap c.do_once (omega (arith, some_call)) ∙ done)
  EndsAs-before m n a le x k cancelled e (early, why) = (
    omega (arith, early),
    elim why [
      | inl g ↦ inl (ap c.is_gone (omega arith) ∙ g)
      | inr (some_call, g) ↦ inr (omega arith, ap c.is_gone_waiting (omega (arith, some_call)) ∙ g)
    ],
  )
  EndsAs-before m n a le x k (unavailable j err) e (same, all, last) = (
    same,
    omega (arith, all),
    elim last [
      | inl (none_left, q) ↦ inr (x, ap c.do_once (omega (arith, none_left)) ∙ e, q)
      | inr (y, failing, q) ↦ inr (y, ap c.do_once (omega arith) ∙ failing, q)
    ],
  )

  retried-before :
      (a : ℕ) (x : E) (k i : ℕ)
      → c.is_gone a ≡ false
      → c.do_once a ≡ failed x
      → ((j : ℕ)
          → j + 1 < k
          → (c.is_gone (a + 1 + j) ≡ false) × ((e : E) × (c.do_once (a + 1 + j) ≡ failed e)))
      → i + 1 < k + 1
      → (c.is_gone (a + i) ≡ false) × ((e : E) × (c.do_once (a + i) ≡ failed e))
  retried-before a x k zero here e before h =
      (ap c.is_gone (omega arith) ∙ here, (x, ap c.do_once (omega arith) ∙ e))
  retried-before a x k (suc i) here e before h =
      let (stays, (y, f)) = before i (omega (arith, h)) in
      (ap c.is_gone (omega arith) ∙ stays, (y, ap c.do_once (omega arith) ∙ f))

  -- Behind the last attempt there is no round left.
  gives_up_spaced :
      (n a m k w : ℕ)
      → a + n ≡ m
      → ltb_ℤ (pos a) (pos m) ≡ false
      → k ≤ n
      → w ≤ k
      → (w ≤ k + 1) × (k + 1 ≤ w + 1)
  gives_up_spaced n a m k w h over low few = ground arith

  waits_early : (n a m : ℕ) → a + n ≡ m → ltb_ℤ (pos a) (pos m) ≡ true → 1 < suc n
  waits_early n a m h more = ground arith

  loop-IsRetry :
      (n a b m : ℕ) (le : Option E)
      → a + n ≡ m + 1
      → fits b n ≡ true
      → IsRetry (pos m) n a b le (attempts_loop c (pos m) n a b le)
  unfolding attempts_loop doubling
  loop-IsRetry zero a b m le h small = record {
    bounded = omega arith;
    retried = λ i k. absurd (omega (arith, k));
    waited = refl;
    spaced = (omega arith, omega arith);
    outcome = (refl, refl, inl (refl, refl));
  }
  loop-IsRetry (suc n) a b m le h small =
      let again = λ (e : E). attempts_loop c (pos m) n (a + 1) (b * 2 % 2 ^ 64) (some e) in
      let last = λ (e : E). attempts_loop c (pos m) n (a + 1) b (some e) in
      elim (round-Rounds (pos m) a b again last) [
        | leaves gone q ↦ rw q (record {
          bounded = omega arith;
          retried = λ i k. absurd (omega (arith, k));
          waited = refl;
          spaced = (omega arith, omega arith);
          outcome = (omega arith, inl (ap c.is_gone (omega arith) ∙ gone));
        })
        | answers r e q ↦ rw q (record {
          bounded = omega arith;
          retried = λ i k. absurd (omega (arith, k));
          waited = refl;
          spaced = (omega arith, omega arith);
          outcome = (omega arith, ap c.do_once (omega arith) ∙ e);
        })
        | gives_up e here f over q ↦
            let v =
              loop-IsRetry n (a + 1) b m (some e) (omega (arith, h))
                (fits_fewer b (suc n) n (omega arith) small) in
            rw q (record {
              bounded = omega (arith, v.bounded);
              retried = λ i k. retried-before a e _ i here f v.retried k;
              waited = v.waited;
              spaced = gives_up_spaced n a m _ _ (omega (arith, h)) over v.bounded v.spaced.0;
              outcome = EndsAs-before (pos m) n a le e _ _ f v.outcome;
            })
        | leaves_waiting e more left q ↦ rw q (record {
          bounded = omega arith;
          retried = λ i k. absurd (omega (arith, k));
          waited = refl;
          spaced = (omega arith, omega arith);
          outcome = (
            waits_early n a m (omega (arith, h)) more,
            inr (omega arith, ap c.is_gone_waiting (omega arith) ∙ left),
          );
        })
        | retries e here f more q ↦
            let same : b * 2 % 2 ^ 64 ≡ b * 2 =
              omega (arith, fits_now (b * 2) n (fits_next b n small)) in
            let v =
              loop-IsRetry n (a + 1) (b * 2) m (some e) (omega (arith, h)) (fits_next b n small) in
            rw q (
              rw same (record {
                bounded = omega (arith, v.bounded);
                retried = λ i k. retried-before a e _ i here f v.retried k;
                waited = ap (λ w. b ∷ w) v.waited;
                spaced = (omega (arith, v.spaced), omega (arith, v.spaced));
                outcome = EndsAs-before (pos m) n a le e _ _ f v.outcome;
              }))
      ]

  -- `Predict` with at most 37 retries, whatever the service and the caller's context do: it makes at
  -- most so many attempts; every attempt but the last failed, and found the context alive; there is a
  -- wait between any two, of 100 ms first and of twice the last after that; and it ends by a
  -- response of its last attempt, or by the context's end, or, with the last error, after all
  -- attempts.
  pub predict-IsRetry :
      (n : ℕ) → n ≤ 37 → IsRetry (pos n) n 1 first_backoff none (predict c (pos n))
  unfolding predict
  predict-IsRetry n h =
      loop-IsRetry n 1 first_backoff n none (omega arith)
        (fits_fewer first_backoff 37 n h first_backoff-fits)
