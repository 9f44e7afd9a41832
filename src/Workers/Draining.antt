-- ===== src/Workers/Draining.antt =====
-- `Shutdown` of backend/internal/workers/pool.go: the workers drain the closed queue and leave; and
-- what a `Submit` that overlaps it does.
use nyc_taxi_real_time_eta_p.Common.{
  ℕ, suc, ◌+◌, ◌*◌, ◌≤◌, ◌≡◌, refl, sym, ap, ◌∙◌, ◌⊎◌, Bool, true, false, List, [], ◌∷◌, ◌++◌,
  append-nil, some, arith, length, get_elem?, inl, inr,
}
use nyc_taxi_real_time_eta_p.Workers.Pool.{
  Worker, idle, exited, holding, running, Pool, ok, panics, submit_load, submit_send, receive,
  begin, finish, leave, shutdown_store, shutdown_close, Works,
}
use nyc_taxi_real_time_eta_p.Common.Sorting.{count}
use nyc_taxi_real_time_eta_p.Workers.Counting.{total, total-set, held, is_exited, remaining}
use nyc_taxi_real_time_eta_p.Workers.Working.{IsSound}

module _ {J : Type 0} where
  -- Steps of workers, one after the other.
  pub data Drains (p : Pool J) : ℕ → Pool J → Type 0 where
    done : Drains p 0 p
    more : {n : ℕ} {q r : Pool J} → Drains p n q → Works q r → Drains p (suc n) r

  -- A job in the queue takes three steps and leaves its worker as it was.
  unfoldable pub work_left : Pool J → ℕ
  work_left p = 3 * length p.queue + total remaining p.workers

  Works-work_left : (p p' : Pool J) → Works p p' → work_left p' + 1 ≡ work_left p
  unfolding work_left receive begin finish leave remaining
  Works-work_left p p' (Works.receives i j rest h e q) =
      rw q (omega (arith, ap length e, total-set remaining p.workers i idle (holding j) h))
  Works-work_left p p' (Works.begins i j h q) =
      rw q (omega (arith, total-set remaining p.workers i (holding j) (running j) h))
  Works-work_left p p' (Works.finishes i j h q) =
      rw q (omega (arith, total-set remaining p.workers i (running j) idle h))
  Works-work_left p p' (Works.leaves i h c e q) =
      rw q (omega (arith, total-set remaining p.workers i idle exited h))

  -- The workers take three steps for a job in the queue and at most three more each: in whatever
  -- order they go, exactly the difference of the work left has been done, so that they come to an
  -- end.
  pub Drains-work_left : (p p' : Pool J) (n : ℕ) → Drains p n p' → n + work_left p' ≡ work_left p
  Drains-work_left p p' n Drains.done = omega arith
  Drains-work_left p p' n (Drains.more {n = m} {q = q} d w) =
      omega (arith, Drains-work_left p q m d, Works-work_left q p' w)

  -- Either no worker is left or one can take a step.
  someone :
      (ws : List (Worker J))
      → (total remaining ws ≡ 0)
        ⊎ ((i : ℕ) × (w : Worker J) × (get_elem? ws i ≡ some w) × (1 ≤ remaining w))
  unfolding total remaining
  someone [] = inl refl
  someone (idle ∷ ws) = inr (0, idle, refl, omega arith)
  someone (holding j ∷ ws) = inr (0, holding j, refl, omega arith)
  someone (running j ∷ ws) = inr (0, running j, refl, omega arith)
  someone (exited ∷ ws) = elim (someone ws) [
    | inl e ↦ inl (omega (arith, e))
    | inr (i, w, h, k) ↦ inr (suc i, w, h, k)
  ]

  Works-on :
      (p : Pool J) (i : ℕ) (w : Worker J) (q : List J)
      → p.queue ≡ q
      → p.jobs_closed ≡ true
      → get_elem? p.workers i ≡ some w
      → 1 ≤ remaining w
      → (p' : Pool J) × Works p p'
  unfolding remaining
  Works-on p i idle [] e c h k = (leave i p, Works.leaves i h c e refl)
  Works-on p i idle (j ∷ q) e c h k = (receive i j q p, Works.receives i j q h e refl)
  Works-on p i (holding j) q e c h k = (begin i j p, Works.begins i j h refl)
  Works-on p i (running j) q e c h k = (finish i j p, Works.finishes i j h refl)
  Works-on p i exited q e c h k = absurd (omega (arith, k))

  gone_held : (t : J → Bool) (ws : List (Worker J)) → total remaining ws ≡ 0 → total (held t) ws ≡ 0
  unfolding total remaining held
  gone_held t [] h = refl
  gone_held t (idle ∷ ws) h = absurd (omega (arith, h))
  gone_held t (holding j ∷ ws) h = absurd (omega (arith, h))
  gone_held t (running j ∷ ws) h = absurd (omega (arith, h))
  gone_held t (exited ∷ ws) h = omega (arith, gone_held t ws (omega (arith, h)))

  gone_exited : (ws : List (Worker J)) → total remaining ws ≡ 0 → total is_exited ws ≡ length ws
  unfolding total remaining is_exited
  gone_exited [] h = refl
  gone_exited (idle ∷ ws) h = absurd (omega (arith, h))
  gone_exited (holding j ∷ ws) h = absurd (omega (arith, h))
  gone_exited (running j ∷ ws) h = absurd (omega (arith, h))
  gone_exited (exited ∷ ws) h = omega (arith, gone_exited ws (omega (arith, h)))

  -- A sound pool of one worker or more whose queue is closed, before the context ends: a worker can
  -- take a step; or every worker has exited, the queue is empty and every job that was submitted is
  -- finished, as often as it was submitted.
  pub shutdown_drains :
      (p : Pool J)
      → IsSound p
      → p.jobs_closed ≡ true
      → p.cancelled ≡ false
      → 1 ≤ length p.workers
      → ((p' : Pool J) × Works p p')
        ⊎ ((total is_exited p.workers ≡ length p.workers)
            × (p.queue ≡ [])
            × ((t : J → Bool) → count t p.finished ≡ count t p.submitted))
  shutdown_drains p v c k h = elim (someone p.workers) [
    | inr (i, w, here, left) ↦ inl (Works-on p i w p.queue refl c here left)
    | inl e ↦
        let empty = (v.drained k (omega (arith, gone_exited p.workers e, h))).1 in
        inr (
          gone_exited p.workers e,
          empty,
          λ t.
              let all : p.started ≡ p.submitted =
                sym (append-nil p.started) ∙ ap (λ q. p.started ++ q) (sym empty) ∙ v.ordered in
              omega (arith, v.kept t, gone_held t p.workers e, ap (count t) all),
        )
  ]

  -- A `Submit` that found the pool open, and whose send comes after the whole of `Shutdown`'s store
  -- and close, panics.
  submit_panics :
      (i : ℕ) (j : J) (p q : Pool J)
      → p.closed ≡ false
      → shutdown_close (shutdown_store (submit_load j p).0) ≡ ok q
      → ((submit_load j p).1 ≡ true) × (submit_send i j q ≡ panics)
  unfolding submit_load submit_send shutdown_close shutdown_store
  submit_panics i j p q open_before closed_after = ground arith
