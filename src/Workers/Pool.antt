-- ===== src/Workers/Pool.antt =====
-- backend/internal/workers/pool.go as a state machine. One step is one atomic action of one goroutine:
-- a load or store of `closed`, a channel operation, or a change of `busyWorkers`. Jobs are of any type. The queue is
-- taken to have a place: an unbuffered channel would hand a job over to a waiting worker.
use nyc_taxi_real_time_eta_p.Common.{
  ℕ, ◌+◌, ◌-◌, ◌%◌, ◌^◌, ◌≡◌, Bool, true, false, List, [], ◌∷◌, ◌++◌, some, ltb, if◌then◌else◌,
  length, get_elem?, set, take, drop, replicate,
}

-- Where a worker goroutine is: in the `select` of `runWorker`, with a job before `process` counts it,
-- in the counted part of `process`, or gone.
pub data Worker (J : Type 0) : Type 0 where
  idle exited : Worker J
  holding running : J → Worker J

-- What `Submit` returns.
pub data Reply : Type 0 where
  accepted queue_full shutting_down : Reply

pub record Pool (J : Type 0) : Type 0 where
  -- The channel `jobs`: its buffer, its capacity, and whether it is closed.
  pub queue : List J
  pub capacity : ℕ
  pub jobs_closed : Bool
  pub workers : List (Worker J)
  -- The word of an int32.
  pub busy_workers : ℕ
  pub closed : Bool
  -- Whether the context of `Start` is done.
  pub cancelled : Bool
  -- The jobs of the calls of `Submit` that have found the pool open and have not sent yet.
  pub sending : List J
  -- The history: what `Submit` accepted, what workers received and what they processed, in order.
  pub submitted : List J
  pub started : List J
  pub finished : List J

pub data Outcome (A : Type 0) : Type 0 where
  ok : A → Outcome A
  panics : Outcome A

pub record Stats : Type 0 where
  pub queue_length : ℕ
  pub queue_capacity : ℕ
  pub busy : ℕ

module _ {J : Type 0} where
  -- `NewPool` and `Start`.
  unfoldable pub new_pool : ℕ → ℕ → Pool J
  new_pool queue_size num_workers = record {
    queue = [];
    capacity = queue_size;
    jobs_closed = false;
    workers = replicate num_workers idle;
    busy_workers = 0;
    closed = false;
    cancelled = false;
    sending = [];
    submitted = [];
    started = [];
    finished = [];
  }

  -- `Submit` up to its load of `closed`: it has answered, or it goes on to send.
  unfoldable pub submit_load : J → Pool J → Pool J × Bool
  submit_load j p =
      if p.closed then (p, false) else (record p { sending = p.sending ++ (j ∷ []) }, true)

  -- The `select` of `Submit`, for the i-th of the calls that go on. A send on a closed channel panics,
  -- which `default` does not prevent. The queue has room for one job at least.
  unfoldable pub submit_send : ℕ → J → Pool J → Outcome (Pool J × Reply)
  submit_send i j p =
      let rest = take i p.sending ++ drop (i + 1) p.sending in
      if p.jobs_closed
      then panics
      else if ltb (length p.queue) p.capacity
      then ok (
        record p {
          sending = rest;
          queue = p.queue ++ (j ∷ []);
          submitted = p.submitted ++ (j ∷ []);
        },
        accepted,
      )
      else ok (record p { sending = rest }, queue_full)

  -- `job := <-p.jobs`, of worker i.
  unfoldable pub receive : ℕ → J → List J → Pool J → Pool J
  receive i j rest p = record p {
    queue = rest;
    workers = set p.workers i (holding j);
    started = p.started ++ (j ∷ []);
  }

  -- `atomic.AddInt32(&p.busyWorkers, 1)` at the start of `process`.
  unfoldable pub begin : ℕ → J → Pool J → Pool J
  begin i j p = record p {
    workers = set p.workers i (running j);
    busy_workers = (p.busy_workers + 1) % 2 ^ 32;
  }

  -- The end of `process`: the result is sent or dropped, and the deferred count goes down.
  unfoldable pub finish : ℕ → J → Pool J → Pool J
  finish i j p = record p {
    workers = set p.workers i idle;
    busy_workers = (p.busy_workers + (2 ^ 32 - 1)) % 2 ^ 32;
    finished = p.finished ++ (j ∷ []);
  }

  unfoldable pub leave : ℕ → Pool J → Pool J
  leave i p = record p { workers = set p.workers i exited }

  -- `atomic.StoreInt32(&p.closed, 1)` of `Shutdown`, and the `close` behind it.
  unfoldable pub shutdown_store : Pool J → Pool J
  shutdown_store p = record p { closed = true }

  unfoldable pub shutdown_close : Pool J → Outcome (Pool J)
  shutdown_close p = if p.jobs_closed then panics else ok (record p { jobs_closed = true })

  unfoldable pub stats : Pool J → Stats
  stats p = record {
    queue_length = length p.queue;
    queue_capacity = p.capacity;
    busy = p.busy_workers;
  }

  -- The steps of the workers.
  pub data Works (p p' : Pool J) : Type 0 where
    receives :
        (i : ℕ) (j : J) (rest : List J)
        → get_elem? p.workers i ≡ some idle
        → p.queue ≡ j ∷ rest
        → p' ≡ receive i j rest p
        → Works p p'
    begins :
        (i : ℕ) (j : J) → get_elem? p.workers i ≡ some (holding j) → p' ≡ begin i j p → Works p p'
    finishes :
        (i : ℕ) (j : J) → get_elem? p.workers i ≡ some (running j) → p' ≡ finish i j p → Works p p'
    -- The channel is closed and drained.
    leaves :
        (i : ℕ)
        → get_elem? p.workers i ≡ some idle
        → p.jobs_closed ≡ true
        → p.queue ≡ []
        → p' ≡ leave i p
        → Works p p'

  -- The steps of everybody, panics left out. `Shutdown` is called once.
  pub data Step (p p' : Pool J) : Type 0 where
    works : Works p p' → Step p p'
    loads : (j : J) → p' ≡ (submit_load j p).0 → Step p p'
    sends :
        (i : ℕ) (j : J) (reply : Reply)
        → get_elem? p.sending i ≡ some j
        → submit_send i j p ≡ ok (p', reply)
        → Step p p'
    stores : p' ≡ shutdown_store p → Step p p'
    closes : p.closed ≡ true → shutdown_close p ≡ ok p' → Step p p'
    -- The context of `Start` ends; a worker may then leave with jobs still in the queue.
    cancels : p' ≡ record p { cancelled = true } → Step p p'
    deserts :
        (i : ℕ)
        → get_elem? p.workers i ≡ some idle
        → p.cancelled ≡ true
        → p' ≡ leave i p
        → Step p p'

  pub data Reaches (p : Pool J) : Pool J → Type 0 where
    start : Reaches p p
    next : {q r : Pool J} → Reaches p q → Step q r → Reaches p r
