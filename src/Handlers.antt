-- ===== src/Handlers.antt =====
-- backend/internal/handlers/handlers.go: the HTTP handlers.
pub mod CreateTrip
pub mod Dispatching
pub mod Booking
pub mod Validation
pub mod Queries
pub mod Predict
pub mod Predicting
pub mod Persistent
pub mod Status
pub mod Reporting
mod Stored
mod Examples
