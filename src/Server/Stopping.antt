-- ===== src/Server/Stopping.antt =====
-- The shutdown of backend/cmd/server/main.go: HTTP first, the pool behind it.
use nyc_taxi_real_time_eta_p.Common.{
  ℕ, zero, suc, ◌^◌, ◌≤◌, ◌<◌, ◌≡◌, ◌≢◌, ap, inl, inr, Bool, true, false, List, [], ◌∷◌, some, ltb,
  arith, length, get_elem?, Bool-cases,
}
use nyc_taxi_real_time_eta_p.Common.Elements.{lt_of_get_elem?}
use nyc_taxi_real_time_eta_p.Workers.Pool.{
  Worker, idle, exited, holding, running, Pool, panics, submit_send, shutdown_close, Works,
}
use nyc_taxi_real_time_eta_p.Common.Sorting.{count}
use nyc_taxi_real_time_eta_p.Workers.Counting.{total, total_bound, is_exited}
use nyc_taxi_real_time_eta_p.Workers.Invariant.{reaches-IsSound}
use nyc_taxi_real_time_eta_p.Workers.Draining.{shutdown_drains}
use nyc_taxi_real_time_eta_p.Server.Invariant.{InPhase, reaches-IsServed}
use nyc_taxi_real_time_eta_p.Server.{
  Phase, serving, stopping, draining, closing, waiting, returned, aborted, is_up, Server,
  new_server, Reaches,
}

module _ {J : Type 0} where
  open_sends :
      (f : Phase) (p : Pool J) (n i : ℕ) (j : J)
      → is_up f ≡ true
      → InPhase f p n
      → length p.sending ≤ n
      → get_elem? p.sending i ≡ some j
      → p.jobs_closed ≡ false
  unfolding InPhase is_up
  open_sends serving p n i j up h few at = h
  open_sends stopping p n i j up h few at = h
  open_sends draining p n i j up h few at = h.0
  open_sends closing p n i j up h few at = h.0
  open_sends waiting p n i j up h few at =
      absurd (omega (arith, h.1, few, lt_of_get_elem? p.sending i j at))
  open_sends returned p n i j up h few at = cc
  open_sends aborted p n i j up h few at = cc

  -- As long as the server runs, no `Submit` panics, although one that overlaps the pool's `Shutdown`
  -- would: the pool is only shut down when no request is in flight. Nor does `Shutdown` itself.
  pub submit-ne-panics :
      (size n : ℕ) (s : Server J)
      → Reaches (new_server size n) s
      → is_up s.phase ≡ true
      → ((i : ℕ) (j : J) → get_elem? s.pool.sending i ≡ some j → submit_send i j s.pool ≢ panics)
        × (s.phase ≡ closing → shutdown_close s.pool ≢ panics)
  unfolding submit_send shutdown_close InPhase
  submit-ne-panics size n s r up =
      let v = reaches-IsServed size n s r in
      (
        λ i j at.
            let c = open_sends s.phase s.pool s.in_flight i j up v.here v.owed at in
            elim (Bool-cases (ltb (length s.pool.queue) s.pool.capacity)) [
              | inl e ↦ rw (c, e) (λ q. cc)
              | inr e ↦ rw (c, e) (λ q. cc)
            ],
        λ f. let (c, idle_, stored) = rw f at v.here in rw c (λ q. cc),
      )

  is_exited_le : (w : Worker J) → is_exited w ≤ 1
  unfolding is_exited
  is_exited_le idle = omega arith
  is_exited_le exited = omega arith
  is_exited_le (holding j) = omega arith
  is_exited_le (running j) = omega arith

  exited_all :
      (ws : List (Worker J)) (i : ℕ) (w : Worker J)
      → total is_exited ws ≡ length ws
      → get_elem? ws i ≡ some w
      → is_exited w ≡ 1
  unfolding total
  exited_all [] i w all at = cc
  exited_all (x ∷ ws) zero w all at =
      let e : x ≡ w = cc in
      omega (arith, all, ap is_exited e, is_exited_le x, total_bound is_exited ws is_exited_le)
  exited_all (x ∷ ws) (suc i) w all at =
      exited_all ws i w (omega (arith, all, is_exited_le x, total_bound is_exited ws is_exited_le))
        at

  gone-ne-Works :
      (p q : Pool J) → total is_exited p.workers ≡ length p.workers → Works p q → zero ≡ 1
  unfolding is_exited
  gone-ne-Works p q all (Works.receives i j rest h e w) = exited_all p.workers i idle all h
  gone-ne-Works p q all (Works.begins i j h w) = exited_all p.workers i (holding j) all h
  gone-ne-Works p q all (Works.finishes i j h w) = exited_all p.workers i (running j) all h
  gone-ne-Works p q all (Works.leaves i h c e w) = exited_all p.workers i idle all h

  -- A server of at least one worker and fewer than 2^31 that comes to the end of `main` has no request
  -- in flight and no job in the queue, and has finished every job that it accepted, as often as it
  -- accepted it.
  pub returned-finishes :
      (size n : ℕ) (s : Server J)
      → 1 ≤ n
      → n < 2 ^ 31
      → Reaches (new_server size n) s
      → s.phase ≡ returned
      → (s.in_flight ≡ 0)
        × (s.pool.queue ≡ [])
        × ((t : J → Bool) → count t s.pool.finished ≡ count t s.pool.submitted)
  unfolding InPhase
  returned-finishes size n s some_ few r f =
      let v = reaches-IsServed size n s r in
      let (c, idle_, gone) = rw f at v.here in
      elim (shutdown_drains s.pool (reaches-IsSound size n s.pool few v.reached) c v.alive
        (omega (arith, some_, v.same))) [
          | inl (p, w) ↦ absurd (omega (arith, gone-ne-Works s.pool p gone w))
          | inr (_, empty, all) ↦ (idle_, empty, all)
        ]
