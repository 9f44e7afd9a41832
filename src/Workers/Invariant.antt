-- ===== src/Workers/Invariant.antt =====
-- The invariant of backend/internal/workers/pool.go in every state that is reached.
use nyc_taxi_real_time_eta_p.Common.{
  ℕ, ◌+◌, ◌^◌, ◌<◌, ◌≡◌, refl, sym, ap, ◌∙◌, Bool, true, false, [], ◌∷◌, ◌++◌, append_assoc, arith,
  ltb, ltb→lt, take, drop, length, length-append, length-replicate, Bool-cases, inl, inr,
}
use nyc_taxi_real_time_eta_p.Workers.Pool.{
  idle, Reply, Pool, ok, new_pool, submit_load, submit_send, shutdown_store, shutdown_close, Step,
  Reaches,
}
use nyc_taxi_real_time_eta_p.Common.Sorting.{count}
use nyc_taxi_real_time_eta_p.Workers.Counting.{total-replicate, held, is_running, is_exited}
use nyc_taxi_real_time_eta_p.Workers.Working.{IsSound, leave-IsSound, Works-IsSound}

module _ {J : Type 0} where
  -- What a send that is accepted, or refused for a full queue, leaves.
  abbrev pub enqueued : ℕ → J → Pool J → Pool J
  enqueued i j p = record p {
    sending = take i p.sending ++ drop (i + 1) p.sending;
    queue = p.queue ++ (j ∷ []);
    submitted = p.submitted ++ (j ∷ []);
  }

  abbrev pub rejected : ℕ → Pool J → Pool J
  rejected i p = record p { sending = take i p.sending ++ drop (i + 1) p.sending }

  pub data Sends (i : ℕ) (j : J) (p p' : Pool J) : Type 0 where
    takes_room :
        p.jobs_closed ≡ false → length p.queue < p.capacity → p' ≡ enqueued i j p → Sends i j p p'
    finds_full : p' ≡ rejected i p → Sends i j p p'

  pub submit_send-Sends :
      (i : ℕ) (j : J) (reply : Reply) (p p' : Pool J)
      → submit_send i j p ≡ ok (p', reply)
      → Sends i j p p'
  unfolding submit_send
  submit_send-Sends i j reply p p' h = elim (Bool-cases p.jobs_closed) [
    | inl e ↦ cc
    | inr e ↦ elim (Bool-cases (ltb (length p.queue) p.capacity)) [
      | inl room ↦ takes_room e (ltb→lt _ _ room) (cc)
      | inr full ↦ finds_full (cc)
    ]
  ]

  enqueued-IsSound :
      (i : ℕ) (j : J) (p : Pool J)
      → IsSound p
      → p.jobs_closed ≡ false
      → length p.queue < p.capacity
      → IsSound (enqueued i j p)
  enqueued-IsSound i j p v opened room = record {
    few = v.few;
    bounded = omega (arith, length-append p.queue (j ∷ []), room);
    counted = v.counted;
    ordered = sym (append_assoc p.started p.queue (j ∷ [])) ∙ ap (λ s. s ++ (j ∷ [])) v.ordered;
    kept = v.kept;
    drained = λ c x. cc ((v.drained c x).0, opened);
    refuses = v.refuses;
  }

  rejected-IsSound : (i : ℕ) (p : Pool J) → IsSound p → IsSound (rejected i p)
  rejected-IsSound i p v = record {
    few = v.few;
    bounded = v.bounded;
    counted = v.counted;
    ordered = v.ordered;
    kept = v.kept;
    drained = v.drained;
    refuses = v.refuses;
  }

  submit_load-IsSound : (j : J) (p : Pool J) → IsSound p → IsSound (submit_load j p).0
  unfolding submit_load
  submit_load-IsSound j p v = elim (Bool-cases p.closed) [
    | inl e ↦ let q : (submit_load j p).0 ≡ p = ground arith in rw q v
    | inr e ↦
        let q : (submit_load j p).0 ≡ record p { sending = p.sending ++ (j ∷ []) } = ground arith in
        rw q (record {
          few = v.few;
          bounded = v.bounded;
          counted = v.counted;
          ordered = v.ordered;
          kept = v.kept;
          drained = v.drained;
          refuses = v.refuses;
        })
  ]

  shutdown-IsSound :
      (c d : Bool) (p : Pool J)
      → IsSound p
      → (d ≡ true → c ≡ true)
      → (p.jobs_closed ≡ true → d ≡ true)
      → IsSound (record p { closed = c; jobs_closed = d })
  shutdown-IsSound c d p v r m = record {
    few = v.few;
    bounded = v.bounded;
    counted = v.counted;
    ordered = v.ordered;
    kept = v.kept;
    drained = λ k x. (m (v.drained k x).0, (v.drained k x).1);
    refuses = r;
  }

  cancel-IsSound : (p : Pool J) → IsSound p → IsSound (record p { cancelled = true })
  cancel-IsSound p v = record {
    few = v.few;
    bounded = v.bounded;
    counted = v.counted;
    ordered = v.ordered;
    kept = v.kept;
    drained = λ c x. cc;
    refuses = v.refuses;
  }

  Step-IsSound : (p p' : Pool J) → IsSound p → Step p p' → IsSound p'
  unfolding shutdown_store shutdown_close
  Step-IsSound p p' v (Step.works w) = Works-IsSound p p' v w
  Step-IsSound p p' v (Step.loads j q) = rw q (submit_load-IsSound j p v)
  Step-IsSound p p' v (Step.sends i j reply h e) = elim (submit_send-Sends i j reply p p' e) [
    | takes_room opened room q ↦ rw q (enqueued-IsSound i j p v opened room)
    | finds_full q ↦ rw q (rejected-IsSound i p v)
  ]
  Step-IsSound p p' v (Step.stores q) =
      rw q (shutdown-IsSound true p.jobs_closed p v (λ _. refl) (λ h. h))
  Step-IsSound p p' v (Step.closes c e) = elim (Bool-cases p.jobs_closed) [
    | inl h ↦ cc
    | inr h ↦
        let q : p' ≡ record p { jobs_closed = true } = cc in
        rw q (shutdown-IsSound p.closed true p v (λ _. c) (λ _. refl))
  ]
  Step-IsSound p p' v (Step.cancels q) = rw q (cancel-IsSound p v)
  Step-IsSound p p' v (Step.deserts i h c q) = rw q (leave-IsSound i p v h (λ k. cc))

  new_pool-IsSound : (size n : ℕ) → n < 2 ^ 31 → IsSound {J = J} (new_pool size n)
  unfolding new_pool count is_running held is_exited
  new_pool-IsSound size n h = record {
    few = rw length-replicate h;
    bounded = omega arith;
    counted = sym (total-replicate is_running n idle refl);
    ordered = refl;
    kept = λ t. omega (arith, total-replicate (held t) n idle refl);
    drained = λ c x. absurd (omega (arith, x, total-replicate is_exited n idle refl));
    refuses = λ e. cc;
  }

  -- In every state that calls of `Submit` and `Shutdown`, the workers and the end of the context
  -- lead to from a new pool of fewer than 2^31 workers: the queue is within its capacity, the busy
  -- counter counts the workers in `process`, jobs are received in the order of their submission and
  -- each once, none is lost, and before the end of the context workers leave a closed and drained
  -- queue only.
  pub reaches-IsSound :
      (size n : ℕ) (p : Pool J) → n < 2 ^ 31 → Reaches (new_pool size n) p → IsSound p
  reaches-IsSound size n p h Reaches.start = new_pool-IsSound size n h
  reaches-IsSound size n p h (Reaches.next r s) = Step-IsSound _ p (reaches-IsSound size n _ h r) s
