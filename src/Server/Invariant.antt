-- ===== src/Server/Invariant.antt =====
-- The invariant of the run of backend/cmd/server/main.go.
use nyc_taxi_real_time_eta_p.Common.{
  ℕ, ◌+◌, ◌-◌, ◌≤◌, ◌≡◌, refl, ap, ◌∙◌, inl, inr, true, false, [], ◌∷◌, ◌++◌, arith, if◌then◌else◌,
  length, length-append, length-take, length-drop, length-replicate, take, drop, Bool-cases,
}
use nyc_taxi_real_time_eta_p.Common.Elements.{length-set}
use nyc_taxi_real_time_eta_p.Workers.Pool.{
  Worker, idle, exited, holding, running, Pool, Reply, ok, panics, new_pool, submit_load,
  submit_send, receive, begin, finish, leave, shutdown_store, shutdown_close, Works,
}
use nyc_taxi_real_time_eta_p.Workers.Pool
use nyc_taxi_real_time_eta_p.Workers.Counting.{total, is_exited}
use nyc_taxi_real_time_eta_p.Workers.Invariant.{takes_room, finds_full, submit_send-Sends}
use nyc_taxi_real_time_eta_p.Server.{
  Phase, serving, stopping, draining, closing, waiting, returned, aborted, accepts, is_up, Server,
  new_server, Step, Reaches,
}

module _ {J : Type 0} where
  -- What holds of the pool and of the requests in each phase.
  unfoldable pub InPhase : Phase → Pool J → ℕ → Type 0
  InPhase serving p n = p.jobs_closed ≡ false
  InPhase stopping p n = p.jobs_closed ≡ false
  InPhase draining p n = (p.jobs_closed ≡ false) × (n ≡ 0)
  InPhase closing p n = (p.jobs_closed ≡ false) × (n ≡ 0) × (p.closed ≡ true)
  InPhase waiting p n = (p.jobs_closed ≡ true) × (n ≡ 0)
  InPhase returned p n =
      (p.jobs_closed ≡ true) × (n ≡ 0) × (total is_exited p.workers ≡ length p.workers)
  InPhase aborted p n = Unit

  pub record IsServed (size n : ℕ) (s : Server J) : Type 0 where
    pub reached : Pool.Reaches (new_pool size n) s.pool
    pub owed : length s.pool.sending ≤ s.in_flight
    pub here : InPhase s.phase s.pool s.in_flight
    pub alive : s.pool.cancelled ≡ false
    pub same : length s.pool.workers ≡ n

  abbrev Unchanged : Pool J → Pool J → Type 0
  Unchanged p q =
      (q.jobs_closed ≡ p.jobs_closed)
      × (q.closed ≡ p.closed)
      × (q.cancelled ≡ p.cancelled)
      × (length q.workers ≡ length p.workers)

  -- A step of the pool that leaves its flags keeps what holds in a phase in which the process runs.
  in_phase :
      (f : Phase) (p q : Pool J) (n m : ℕ)
      → is_up f ≡ true
      → Unchanged p q
      → (n ≡ 0 → m ≡ 0)
      → InPhase f p n
      → InPhase f q m
  unfolding InPhase is_up
  in_phase serving p q n m up (a, b, c, d) k h = a ∙ h
  in_phase stopping p q n m up (a, b, c, d) k h = a ∙ h
  in_phase draining p q n m up (a, b, c, d) k h = (a ∙ h.0, k h.1)
  in_phase closing p q n m up (a, b, c, d) k h = (a ∙ h.0, k h.1, b ∙ h.2)
  in_phase waiting p q n m up (a, b, c, d) k h = (a ∙ h.0, k h.1)
  in_phase returned p q n m up u k h = cc
  in_phase aborted p q n m up u k h = tt

  Works-Unchanged : (p q : Pool J) → Works p q → Unchanged p q × (q.sending ≡ p.sending)
  unfolding receive begin finish leave
  Works-Unchanged p q (Works.receives i j rest h e w) =
      rw w ((refl, refl, refl, length-set p.workers i _), refl)
  Works-Unchanged p q (Works.begins i j h w) =
      rw w ((refl, refl, refl, length-set p.workers i _), refl)
  Works-Unchanged p q (Works.finishes i j h w) =
      rw w ((refl, refl, refl, length-set p.workers i _), refl)
  Works-Unchanged p q (Works.leaves i h c e w) =
      rw w ((refl, refl, refl, length-set p.workers i _), refl)

  load-Unchanged :
      (j : J) (p : Pool J)
      → Unchanged p (submit_load j p).0
        × (length (submit_load j p).0.sending ≤ length p.sending + 1)
  unfolding submit_load
  load-Unchanged j p = elim (Bool-cases p.closed) [
    | inl e ↦ rw e ((refl, refl, refl, refl), omega arith)
    | inr e ↦ rw e ((refl, refl, refl, refl), omega (arith, length-append p.sending (j ∷ [])))
  ]

  send-Unchanged :
      (i : ℕ) (j : J) (p q : Pool J) (reply : Reply)
      → submit_send i j p ≡ ok (q, reply)
      → Unchanged p q × (length q.sending ≤ length p.sending)
  send-Unchanged i j p q reply e =
      let shorter : length (take i p.sending ++ drop (i + 1) p.sending) ≤ length p.sending =
        ground (
          arith,
          length-append (take i p.sending) (drop (i + 1) p.sending),
          length-take i p.sending,
          length-drop (i + 1) p.sending,
        ) in
      elim (submit_send-Sends i j reply p q e) [
        | takes_room opened room w ↦ rw w ((refl, refl, refl, refl), shorter)
        | finds_full w ↦ rw w ((refl, refl, refl, refl), shorter)
      ]

  arrive_phase :
      (f : Phase) (p : Pool J) (n m : ℕ) → accepts f ≡ true → InPhase f p n → InPhase f p m
  unfolding InPhase accepts
  arrive_phase serving p n m a h = h
  arrive_phase stopping p n m a h = h
  arrive_phase draining p n m a h = cc
  arrive_phase closing p n m a h = cc
  arrive_phase waiting p n m a h = cc
  arrive_phase returned p n m a h = cc
  arrive_phase aborted p n m a h = cc

  module _ (size n : ℕ) (s : Server J) (v : IsServed size n s) where
    -- What a step of the pool leaves, while the process runs.
    pool-IsServed :
        (q : Pool J)
        → is_up s.phase ≡ true
        → Pool.Step s.pool q
        → Unchanged s.pool q
        → length q.sending ≤ s.in_flight
        → IsServed size n (record s { pool = q })
    pool-IsServed q up step u few = record {
      reached = Pool.Reaches.next v.reached step;
      owed = few;
      here = in_phase s.phase s.pool q s.in_flight s.in_flight up u (λ e. e) v.here;
      alive = u.2 ∙ v.alive;
      same = u.3 ∙ v.same;
    }

    -- The same of a change of the phase alone.
    phase-IsServed :
        (f : Phase) → InPhase f s.pool s.in_flight → IsServed size n (record s { phase = f })
    phase-IsServed f h = record {
      reached = v.reached;
      owed = v.owed;
      here = h;
      alive = v.alive;
      same = v.same;
    }

    Step-IsServed : (s' : Server J) → Step s s' → IsServed size n s'
    unfolding InPhase shutdown_store shutdown_close
    Step-IsServed s' (Step.arrives a q) = rw q (record {
      reached = v.reached;
      owed = omega (arith, v.owed);
      here = arrive_phase s.phase s.pool s.in_flight (s.in_flight + 1) a v.here;
      alive = v.alive;
      same = v.same;
    })
    Step-IsServed s' (Step.submits j up free q) =
        let (u, few) = load-Unchanged j s.pool in
        rw q (
          pool-IsServed (submit_load j s.pool).0 up (Pool.Step.loads j refl) u
            (omega (arith, few, free)))
    Step-IsServed s' (Step.sends i j p reply up at e q) =
        let (u, few) = send-Unchanged i j s.pool p reply e in
        rw q (pool-IsServed p up (Pool.Step.sends i j reply at e) u (omega (arith, few, v.owed)))
    Step-IsServed s' (Step.answers up free q) = rw q (record {
      reached = v.reached;
      owed = omega (arith, free);
      here =
          in_phase s.phase s.pool s.pool s.in_flight (s.in_flight - 1) up (refl, refl, refl, refl)
            (λ e. omega (arith, e)) v.here;
      alive = v.alive;
      same = v.same;
    })
    Step-IsServed s' (Step.works p up w q) =
        let (u, e) = Works-Unchanged s.pool p w in
        rw q (pool-IsServed p up (Pool.Step.works w) u (omega (arith, ap length e, v.owed)))
    Step-IsServed s' (Step.signalled f q) = rw q (phase-IsServed stopping (rw f at v.here))
    Step-IsServed s' (Step.stopped f e q) = rw q (phase-IsServed draining (rw f at v.here, e))
    Step-IsServed s' (Step.stores f q) = rw q (record {
      reached = Pool.Reaches.next v.reached (Pool.Step.stores refl);
      owed = v.owed;
      here = let (c, e) = rw f at v.here in (c, e, refl);
      alive = v.alive;
      same = v.same;
    })
    Step-IsServed s' (Step.closes p f e q) =
        let (c, idle_, stored) = rw f at v.here in
        let w : p ≡ record s.pool { jobs_closed = true } = cc in
        rw (q, w)
          (record {
            reached = Pool.Reaches.next v.reached (
                Pool.Step.closes stored
                  (ap (λ b. if b then panics else ok (record s.pool { jobs_closed = true })) c));
            owed = v.owed;
            here = (refl, idle_);
            alive = v.alive;
            same = v.same;
          })
    Step-IsServed s' (Step.returns f e q) =
        let (c, idle_) = rw f at v.here in rw q (phase-IsServed returned (c, idle_, e))
    Step-IsServed s' (Step.serving_fails f q) = rw q (phase-IsServed aborted tt)
    Step-IsServed s' (Step.stopping_fails f q) = rw q (phase-IsServed aborted tt)
    Step-IsServed s' (Step.waiting_fails f q) = rw q (phase-IsServed aborted tt)

  new_server-IsServed : (size n : ℕ) → IsServed size n (new_server size n)
  unfolding new_server new_pool InPhase
  new_server-IsServed size n = record {
    reached = Pool.Reaches.start;
    owed = omega arith;
    here = refl;
    alive = refl;
    same = length-replicate n idle;
  }

  pub reaches-IsServed :
      (size n : ℕ) (s : Server J) → Reaches (new_server size n) s → IsServed size n s
  reaches-IsServed size n s Reaches.start = new_server-IsServed size n
  reaches-IsServed size n s (Reaches.next {t = t} r step) =
      Step-IsServed size n t (reaches-IsServed size n t r) s step
