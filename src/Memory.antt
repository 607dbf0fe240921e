-- ===== src/Memory.antt =====
-- services/memory_estimate.py: the memory that a loaded model takes, and the placement that `--fit`
-- finds for it.
pub mod Search
pub mod Model
pub mod Placement
pub mod Weights
pub mod Layers
pub mod Cache
pub mod Estimate
pub mod Fit
pub mod Total
mod Tests
