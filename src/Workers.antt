-- ===== src/Workers.antt =====
-- backend/internal/workers/pool.go: the bounded pool of prediction workers.
pub mod Pool
pub mod Counting
pub mod Working
pub mod Invariant
pub mod Draining
mod Examples
