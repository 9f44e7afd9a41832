-- ===== src/Server.antt =====
-- The run of backend/cmd/server/main.go: the requests, the worker pool and the shutdown together. A
-- request is counted while its handler runs; net/http waits for those in its `Shutdown`. The handlers
-- of WebSocket, which take their connection over, submit nothing and are left out.
mod Invariant
mod Stopping
mod Fleet
mod Startup
mod Examples
use nyc_taxi_real_time_eta_p.Common.{
  ℕ, ◌+◌, ◌-◌, ◌<◌, ◌≡◌, Bool, true, false, some, length, get_elem?,
}
use nyc_taxi_real_time_eta_p.Workers.Pool.{
  Pool, Reply, ok, new_pool, submit_load, submit_send, shutdown_store, shutdown_close, Works,
}
use nyc_taxi_real_time_eta_p.Workers.Counting.{total, is_exited}

-- Where `main` is: it waits for a signal, in `srv.Shutdown`, before and in `pool.Shutdown` (in front of
-- its store, of its close, and in its wait), behind it, and after `os.Exit(1)`.
pub data Phase : Type 0 where
  serving stopping draining closing waiting returned aborted : Phase

-- `srv.Shutdown` closes the listeners, but a connection that is there may still bring a request.
unfoldable pub accepts : Phase → Bool
accepts serving = true
accepts stopping = true
accepts draining = false
accepts closing = false
accepts waiting = false
accepts returned = false
accepts aborted = false

-- Whether the process runs.
unfoldable pub is_up : Phase → Bool
is_up serving = true
is_up stopping = true
is_up draining = true
is_up closing = true
is_up waiting = true
is_up returned = false
is_up aborted = false

module _ (J : Type 0) where
  pub record Server : Type 0 where
    pub pool : Pool J
    pub in_flight : ℕ
    pub phase : Phase

module _ {J : Type 0} where
  unfoldable pub new_server : ℕ → ℕ → Server J
  new_server queue_size num_workers = record {
    pool = new_pool queue_size num_workers;
    in_flight = 0;
    phase = serving;
  }

  pub data Step (s s' : Server J) : Type 0 where
    arrives : accepts s.phase ≡ true → s' ≡ record s { in_flight = s.in_flight + 1 } → Step s s'
    -- `Submit` in a handler that is not inside of one already.
    submits :
        (j : J)
        → is_up s.phase ≡ true
        → length s.pool.sending < s.in_flight
        → s' ≡ record s { pool = (submit_load j s.pool).0 }
        → Step s s'
    sends :
        (i : ℕ) (j : J) (p : Pool J) (reply : Reply)
        → is_up s.phase ≡ true
        → get_elem? s.pool.sending i ≡ some j
        → submit_send i j s.pool ≡ ok (p, reply)
        → s' ≡ record s { pool = p }
        → Step s s'
    -- A handler that is not inside of `Submit` returns.
    answers :
        is_up s.phase ≡ true
        → length s.pool.sending < s.in_flight
        → s' ≡ record s { in_flight = s.in_flight - 1 }
        → Step s s'
    works :
        (p : Pool J)
        → is_up s.phase ≡ true
        → Works s.pool p
        → s' ≡ record s { pool = p }
        → Step s s'
    -- SIGINT or SIGTERM.
    signalled : s.phase ≡ serving → s' ≡ record s { phase = stopping } → Step s s'
    -- `srv.Shutdown` returns nil.
    stopped : s.phase ≡ stopping → s.in_flight ≡ 0 → s' ≡ record s { phase = draining } → Step s s'
    stores :
        s.phase ≡ draining
        → s' ≡ record s { pool = shutdown_store s.pool; phase = closing }
        → Step s s'
    closes :
        (p : Pool J)
        → s.phase ≡ closing
        → shutdown_close s.pool ≡ ok p
        → s' ≡ record s { pool = p; phase = waiting }
        → Step s s'
    -- Every worker is gone before the deadline; the deferred calls follow.
    returns :
        s.phase ≡ waiting
        → total is_exited s.pool.workers ≡ length s.pool.workers
        → s' ≡ record s { phase = returned }
        → Step s s'
    -- The listener fails, or a deadline passes.
    serving_fails : s.phase ≡ serving → s' ≡ record s { phase = aborted } → Step s s'
    stopping_fails : s.phase ≡ stopping → s' ≡ record s { phase = aborted } → Step s s'
    waiting_fails : s.phase ≡ waiting → s' ≡ record s { phase = aborted } → Step s s'

  pub data Reaches (s : Server J) : Server J → Type 0 where
    start : Reaches s s
    next : {t u : Server J} → Reaches s t → Step t u → Reaches s u
