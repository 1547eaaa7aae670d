-- ===== src/Examples.antt =====
-- Concrete inputs, and the theorems at them.
pub mod Data
pub mod Planning
pub mod Scaling
pub mod Updating
pub mod Recommending
pub mod Tracking
pub mod Queueing
pub mod Measuring
pub mod Scraping
pub mod Flowing
