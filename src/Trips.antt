-- ===== src/Trips.antt =====
-- backend/internal/repositories/trip_repository.go: the trips that the server knows.
pub mod Memory
pub mod Page
pub mod Records
pub mod Listing
pub mod Refining
pub mod Table
pub mod Postgres
pub mod Stored
mod Examples
