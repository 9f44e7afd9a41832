-- ===== src/Metrics.antt =====
-- backend/internal/metrics/metrics.go: counters and histograms.
pub mod Histogram
pub mod Observing
pub mod Exposition
pub mod App
pub mod Samples
pub mod Scraping
mod Examples
