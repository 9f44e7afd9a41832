-- ===== src/Server/Examples.antt =====
-- A run of backend/cmd/server/main.go with one worker: a job is submitted and finished, and the server is
-- stopped.
use nyc_taxi_real_time_eta_p.Common.{
  ℕ, ◌≡◌, ◌≢◌, refl, ◌⊎◌, Bool, true, false, List, [], ◌∷◌, some, arith, get_elem?,
}
use nyc_taxi_real_time_eta_p.Workers.Pool.{
  Pool, Works, idle, exited, holding, running, accepted, panics, new_pool, submit_load, submit_send,
  receive, begin, finish, leave, shutdown_store, shutdown_close,
}
use nyc_taxi_real_time_eta_p.Common.Sorting.{count}
use nyc_taxi_real_time_eta_p.Workers.Counting.{total, is_exited}
use nyc_taxi_real_time_eta_p.Server.{
  Phase, Server, new_server, serving, stopping, draining, closing, waiting, returned, accepts,
  is_up, Step, Reaches,
}
use nyc_taxi_real_time_eta_p.Common.Bytes.{Bytes}
use nyc_taxi_real_time_eta_p.Geo.Examples.{whole}
use nyc_taxi_real_time_eta_p.Dispatch.Driver.{Driver, is_available}
use nyc_taxi_real_time_eta_p.Dispatch.Persistent.{seed_if_empty}
use nyc_taxi_real_time_eta_p.Dispatch.Examples.{fleet_db, fleet_db_laws}
use nyc_taxi_real_time_eta_p.Server.Fleet.{random_driver, random_drivers, seed_drivers, start_fleet}
use nyc_taxi_real_time_eta_p.Server.Stopping.{submit-ne-panics, returned-finishes}

abbrev blank : Pool ℕ
blank = record {
  queue = [];
  capacity = 1;
  jobs_closed = false;
  workers = idle ∷ [];
  busy_workers = 0;
  closed = false;
  cancelled = false;
  sending = [];
  submitted = [];
  started = [];
  finished = [];
}

abbrev at_phase : Pool ℕ → ℕ → Phase → Server ℕ
at_phase p n f = record { pool = p; in_flight = n; phase = f }

-- The request is inside of `Submit`.
abbrev sending_seven : Pool ℕ
sending_seven = record blank { sending = 7 ∷ [] }

abbrev queued : Pool ℕ
queued = record blank { queue = 7 ∷ []; submitted = 7 ∷ [] }

abbrev taken : Pool ℕ
taken = record blank { workers = holding 7 ∷ []; submitted = 7 ∷ []; started = 7 ∷ [] }

abbrev busy : Pool ℕ
busy = record taken { workers = running 7 ∷ []; busy_workers = 1 }

abbrev done : Pool ℕ
done = record taken { workers = idle ∷ []; finished = 7 ∷ [] }

abbrev stored : Pool ℕ
stored = record done { closed = true }

abbrev shut : Pool ℕ
shut = record stored { jobs_closed = true }

abbrev gone : Pool ℕ
gone = record shut { workers = exited ∷ [] }

sending_reached : Reaches (new_server 1 1) (at_phase sending_seven 1 serving)
unfolding new_server new_pool submit_load accepts is_up
sending_reached =
    Reaches.next {t = at_phase blank 1 serving}
      (Reaches.next {t = at_phase blank 0 serving} Reaches.start (Step.arrives refl refl))
      (Step.submits 7 refl (omega arith) refl)

done_reached : Reaches (new_server 1 1) (at_phase done 1 serving)
unfolding submit_send receive begin finish is_up
done_reached =
    Reaches.next {t = at_phase busy 1 serving}
      (Reaches.next {t = at_phase taken 1 serving}
        (Reaches.next {t = at_phase queued 1 serving}
          (Reaches.next {t = at_phase sending_seven 1 serving} sending_reached
            (Step.sends 0 7 queued accepted refl refl refl refl))
          (Step.works taken refl (Works.receives 0 7 [] refl refl refl) refl))
        (Step.works busy refl (Works.begins 0 7 refl refl) refl))
      (Step.works done refl (Works.finishes 0 7 refl refl) refl)

closing_reached : Reaches (new_server 1 1) (at_phase stored 0 closing)
unfolding is_up shutdown_store
closing_reached =
    Reaches.next {t = at_phase done 0 draining}
      (Reaches.next {t = at_phase done 0 stopping}
        (Reaches.next {t = at_phase done 1 stopping}
          (Reaches.next {t = at_phase done 1 serving} done_reached (Step.signalled refl refl))
          (Step.answers refl (omega arith) refl))
        (Step.stopped refl refl refl))
      (Step.stores refl refl)

returned_reached : Reaches (new_server 1 1) (at_phase gone 0 returned)
unfolding shutdown_close leave is_up total is_exited
returned_reached =
    Reaches.next {t = at_phase gone 0 waiting}
      (Reaches.next {t = at_phase shut 0 waiting}
        (Reaches.next {t = at_phase stored 0 closing} closing_reached
          (Step.closes shut refl refl refl))
        (Step.works gone refl (Works.leaves 0 refl refl refl refl) refl))
      (Step.returns refl refl refl)

submit-ne-panics_example :
    ((i j : ℕ) → get_elem? (7 ∷ []) i ≡ some j → submit_send i j sending_seven ≢ panics)
    × (serving ≡ closing → shutdown_close sending_seven ≢ panics)
unfolding is_up
submit-ne-panics_example =
    submit-ne-panics 1 1 (at_phase sending_seven 1 serving) sending_reached refl

returned-finishes_example :
    ((at_phase gone 0 returned).in_flight ≡ 0)
    × (gone.queue ≡ [])
    × ((t : ℕ → Bool) → count t gone.finished ≡ count t gone.submitted)
returned-finishes_example =
    returned-finishes 1 1 (at_phase gone 0 returned) (omega arith) (omega arith) returned_reached
      refl

-- Two drivers at one place.
abbrev two_ids : ℕ → Bytes
two_ids i = i ∷ []

abbrev two_drivers : List (Bytes × Driver ℕ)
two_drivers = (0 ∷ [], random_driver whole (1, 1)) ∷ (1 ∷ [], random_driver whole (1, 1)) ∷ []

abbrev no_drivers : List (Driver ℕ)
no_drivers = []

start_fleet_example :
    ((no_drivers ≢ [])
      × (fleet_db_laws.drivers (seed_if_empty fleet_db two_drivers no_drivers).0 ≡ []))
    ⊎ ((no_drivers ≡ [])
        × (count is_available
              (fleet_db_laws.drivers (seed_if_empty fleet_db two_drivers no_drivers).0)
            ≡ 2))
unfolding seed_drivers random_drivers seed_if_empty fleet_db_laws
start_fleet_example =
    start_fleet whole fleet_db fleet_db_laws two_ids (λ i. (1, 1)) 2 two_drivers no_drivers refl
      refl
