-- ===== src/Dispatch.antt =====
-- backend/internal/dispatch: the driver fleet and the choice of the nearest driver.
pub mod Driver
pub mod Fleet
pub mod Nearest
pub mod Assign
pub mod Ranking
pub mod Assigning
pub mod Assigner
pub mod Persistent
pub mod Seeding
pub mod Examples
