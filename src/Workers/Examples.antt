-- ===== src/Workers/Examples.antt =====
-- backend/internal/workers/pool.go in concrete runs. Jobs are numbers.
use nyc_taxi_real_time_eta_p.Common.{ℕ, ◌+◌, ◌≡◌, refl, ◌⊎◌, Bool, true, false, [], ◌∷◌, arith}
use nyc_taxi_real_time_eta_p.Workers.Pool.{
  Pool, Step, Reaches, Works, idle, holding, accepted, new_pool, submit_load, submit_send, begin,
  receive, shutdown_store, shutdown_close,
}
use nyc_taxi_real_time_eta_p.Common.Sorting.{count}
use nyc_taxi_real_time_eta_p.Workers.Invariant.{reaches-IsSound}
use nyc_taxi_real_time_eta_p.Workers.Counting.{total, is_exited}
use nyc_taxi_real_time_eta_p.Workers.Working.{IsSound}
use nyc_taxi_real_time_eta_p.Workers.Draining.{Drains, work_left, Drains-work_left, shutdown_drains}

abbrev small : Pool ℕ
small = record {
  queue = [];
  capacity = 1;
  jobs_closed = false;
  workers = idle ∷ idle ∷ [];
  busy_workers = 0;
  closed = false;
  cancelled = false;
  sending = [];
  submitted = [];
  started = [];
  finished = [];
}

small_is_new : new_pool 1 2 ≡ small
unfolding new_pool
small_is_new = refl

-- Job 7 is submitted, and worker 1 takes it.
abbrev loaded : Pool ℕ
loaded = record small { sending = 7 ∷ [] }

abbrev queued : Pool ℕ
queued = record small { queue = 7 ∷ []; submitted = 7 ∷ [] }

abbrev taken : Pool ℕ
taken = record queued { queue = []; workers = idle ∷ holding 7 ∷ []; started = 7 ∷ [] }

queued_reached : Reaches (new_pool 1 2) queued
unfolding new_pool submit_load submit_send
queued_reached =
    Reaches.next {q = loaded} (Reaches.next {q = small} Reaches.start (Step.loads 7 refl))
      (Step.sends 0 7 accepted refl refl)

taken_reached : Reaches (new_pool 1 2) taken
unfolding receive
taken_reached =
    Reaches.next {q = queued} queued_reached (Step.works (Works.receives 1 7 [] refl refl refl))

reaches-IsSound_example : IsSound taken
reaches-IsSound_example = reaches-IsSound 1 2 taken (omega arith) taken_reached

Drains-work_left_example : 1 + work_left (begin 1 7 taken) ≡ work_left taken
Drains-work_left_example =
    Drains-work_left taken (begin 1 7 taken) 1
      (Drains.more Drains.done (Works.begins 1 7 refl refl))

-- The queue closed with job 7 in it.
abbrev closing : Pool ℕ
closing = record queued { closed = true; jobs_closed = true }

closing_reached : Reaches (new_pool 1 2) closing
unfolding shutdown_store shutdown_close
closing_reached =
    Reaches.next {q = record queued { closed = true }}
      (Reaches.next {q = queued} queued_reached (Step.stores refl)) (Step.closes refl refl)

shutdown_drains_example :
    ((p' : Pool ℕ) × Works closing p')
    ⊎ ((total is_exited closing.workers ≡ 2)
        × (closing.queue ≡ [])
        × ((t : ℕ → Bool) → count t closing.finished ≡ count t closing.submitted))
shutdown_drains_example =
    shutdown_drains closing (reaches-IsSound 1 2 closing (omega arith) closing_reached) refl refl
      (omega arith)
