-- ===== src/Workers/Working.antt =====
-- The invariant of backend/internal/workers/pool.go, and the steps of its workers.
use nyc_taxi_real_time_eta_p.Common.{
  ℕ, ◌+◌, ◌^◌, ◌≤◌, ◌<◌, ◌≡◌, sym, ap, ◌∙◌, Bool, true, false, List, [], ◌∷◌, ◌++◌, append_assoc,
  some, arith, length, get_elem?,
}
use nyc_taxi_real_time_eta_p.Common.Elements.{length-set}
use nyc_taxi_real_time_eta_p.Workers.Pool.{
  Worker, idle, exited, holding, running, Pool, receive, begin, finish, leave, Works,
}
use nyc_taxi_real_time_eta_p.Common.Sorting.{count, count-append}
use nyc_taxi_real_time_eta_p.Workers.Counting.{
  total, total-set, total_bound, total_member, held, is_running, is_exited,
}

module _ {J : Type 0} where
  pub record IsSound (p : Pool J) : Type 0 where
    pub few : length p.workers < 2 ^ 31
    -- The queue stays within its capacity.
    pub bounded : length p.queue ≤ p.capacity
    -- The counter is the number of workers inside `process`.
    pub counted : p.busy_workers ≡ total is_running p.workers
    -- Jobs are received in the order of their submission, each once.
    pub ordered : p.started ++ p.queue ≡ p.submitted
    -- Whatever was received is finished or with a worker.
    pub kept : (t : J → Bool) → count t p.started ≡ count t p.finished + total (held t) p.workers
    -- Before the context ends, workers leave only a closed and drained queue.
    pub drained :
        p.cancelled ≡ false
        → 1 ≤ total is_exited p.workers
        → (p.jobs_closed ≡ true) × (p.queue ≡ [])
    pub refuses : p.jobs_closed ≡ true → p.closed ≡ true

  is_running_le : (w : Worker J) → is_running w ≤ 1
  unfolding is_running
  is_running_le idle = omega arith
  is_running_le exited = omega arith
  is_running_le (holding j) = omega arith
  is_running_le (running j) = omega arith

  running_few : (p : Pool J) → IsSound p → total is_running p.workers < 2 ^ 31
  running_few p v = omega (arith, total_bound is_running p.workers is_running_le, v.few)

  receive-IsSound :
      (i : ℕ) (j : J) (rest : List J) (p : Pool J)
      → IsSound p
      → get_elem? p.workers i ≡ some idle
      → p.queue ≡ j ∷ rest
      → IsSound (receive i j rest p)
  unfolding receive is_running is_exited held count
  receive-IsSound i j rest p v h e = record {
    few = rw length-set v.few;
    bounded = omega (arith, ap length e, v.bounded);
    counted = omega (arith, total-set is_running p.workers i idle (holding j) h, v.counted);
    ordered = append_assoc p.started (j ∷ []) rest ∙ rw (sym e) v.ordered;
    kept = λ t. omega (
      arith,
      total-set (held t) p.workers i idle (holding j) h,
      v.kept t,
      count-append t p.started (j ∷ []),
    );
    drained = λ c x. absurd (
        nonempty
          (v.drained c (omega (arith, x, total-set is_exited p.workers i idle (holding j) h))).1);
    refuses = v.refuses;
  }
    where
      nonempty : p.queue ≡ [] → ⊥
      nonempty q = cc

  begin-IsSound :
      (i : ℕ) (j : J) (p : Pool J)
      → IsSound p
      → get_elem? p.workers i ≡ some (holding j)
      → IsSound (begin i j p)
  unfolding begin is_running is_exited held
  begin-IsSound i j p v h = record {
    few = rw length-set v.few;
    bounded = v.bounded;
    counted = omega (
      arith,
      total-set is_running p.workers i (holding j) (running j) h,
      v.counted,
      running_few p v,
    );
    ordered = v.ordered;
    kept = λ t. omega (arith, total-set (held t) p.workers i (holding j) (running j) h, v.kept t);
    drained = λ c x.
        v.drained c (omega (arith, x, total-set is_exited p.workers i (holding j) (running j) h));
    refuses = v.refuses;
  }

  finish-IsSound :
      (i : ℕ) (j : J) (p : Pool J)
      → IsSound p
      → get_elem? p.workers i ≡ some (running j)
      → IsSound (finish i j p)
  unfolding finish is_running is_exited held count
  finish-IsSound i j p v h = record {
    few = rw length-set v.few;
    bounded = v.bounded;
    counted = omega (
      arith,
      total-set is_running p.workers i (running j) idle h,
      total_member is_running p.workers i (running j) h,
      v.counted,
      running_few p v,
    );
    ordered = v.ordered;
    kept = λ t. omega (
      arith,
      total-set (held t) p.workers i (running j) idle h,
      v.kept t,
      count-append t p.finished (j ∷ []),
    );
    drained =
        λ c x. v.drained c (omega (arith, x, total-set is_exited p.workers i (running j) idle h));
    refuses = v.refuses;
  }

  pub leave-IsSound :
      (i : ℕ) (p : Pool J)
      → IsSound p
      → get_elem? p.workers i ≡ some idle
      → (p.cancelled ≡ false → (p.jobs_closed ≡ true) × (p.queue ≡ []))
      → IsSound (leave i p)
  unfolding leave is_running held
  leave-IsSound i p v h d = record {
    few = rw length-set v.few;
    bounded = v.bounded;
    counted = omega (arith, total-set is_running p.workers i idle exited h, v.counted);
    ordered = v.ordered;
    kept = λ t. omega (arith, total-set (held t) p.workers i idle exited h, v.kept t);
    drained = λ c x. d c;
    refuses = v.refuses;
  }

  pub Works-IsSound : (p p' : Pool J) → IsSound p → Works p p' → IsSound p'
  Works-IsSound p p' v (Works.receives i j rest h e q) = rw q (receive-IsSound i j rest p v h e)
  Works-IsSound p p' v (Works.begins i j h q) = rw q (begin-IsSound i j p v h)
  Works-IsSound p p' v (Works.finishes i j h q) = rw q (finish-IsSound i j p v h)
  Works-IsSound p p' v (Works.leaves i h c e q) = rw q (leave-IsSound i p v h (λ _. (c, e)))
