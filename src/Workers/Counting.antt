-- ===== src/Workers/Counting.antt =====
-- Sums over the workers of backend/internal/workers/pool.go.
use nyc_taxi_real_time_eta_p.Common.{
  ℕ, zero, suc, ◌+◌, ◌≤◌, ◌≡◌, refl, Bool, List, [], ◌∷◌, some, arith, if◌then◌else◌, length,
  get_elem?, set, replicate,
}
use nyc_taxi_real_time_eta_p.Workers.Pool.{Worker, idle, exited, holding, running}

module _ {J : Type 0} where
  unfoldable pub total : (Worker J → ℕ) → List (Worker J) → ℕ
  total f [] = 0
  total f (w ∷ ws) = f w + total f ws

  -- One worker changes: the total changes by what it adds and what it takes away.
  pub total-set :
      (f : Worker J → ℕ) (ws : List (Worker J)) (i : ℕ) (w v : Worker J)
      → get_elem? ws i ≡ some w
      → total f (set ws i v) + f w ≡ total f ws + f v
  unfolding total
  total-set f [] i w v h = cc
  total-set f (x ∷ ws) zero w v h = ground arith
  total-set f (x ∷ ws) (suc i) w v h = omega (arith, total-set f ws i w v h)

  pub total_bound :
      (f : Worker J → ℕ) (ws : List (Worker J))
      → ((w : Worker J) → f w ≤ 1)
      → total f ws ≤ length ws
  unfolding total
  total_bound f [] h = omega arith
  total_bound f (w ∷ ws) h = omega (arith, total_bound f ws h, h w)

  pub total_member :
      (f : Worker J → ℕ) (ws : List (Worker J)) (i : ℕ) (w : Worker J)
      → get_elem? ws i ≡ some w
      → f w ≤ total f ws
  unfolding total
  total_member f [] i w h = cc
  total_member f (x ∷ ws) zero w h = ground arith
  total_member f (x ∷ ws) (suc i) w h = omega (arith, total_member f ws i w h)

  pub total-replicate :
      (f : Worker J → ℕ) (n : ℕ) (w : Worker J) → f w ≡ 0 → total f (replicate n w) ≡ 0
  unfolding total
  total-replicate f zero w h = refl
  total-replicate f (suc n) w h = omega (arith, total-replicate f n w h)

  -- How many jobs that a worker has pass a test.
  unfoldable pub held : (J → Bool) → Worker J → ℕ
  held t idle = 0
  held t exited = 0
  held t (holding j) = if t j then 1 else 0
  held t (running j) = if t j then 1 else 0

  unfoldable pub is_running : Worker J → ℕ
  is_running idle = 0
  is_running exited = 0
  is_running (holding j) = 0
  is_running (running j) = 1

  unfoldable pub is_exited : Worker J → ℕ
  is_exited idle = 0
  is_exited exited = 1
  is_exited (holding j) = 0
  is_exited (running j) = 0

  -- Steps that a worker still has to do without a further job.
  unfoldable pub remaining : Worker J → ℕ
  remaining idle = 1
  remaining exited = 0
  remaining (holding j) = 3
  remaining (running j) = 2
