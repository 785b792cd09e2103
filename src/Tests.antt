-- ===== src/Tests.antt =====
-- Concrete instances: parameters that meet the assumptions, and the theorems at concrete data.
pub mod Samples
pub mod Sites
mod DiffRuns
mod SyncRuns
mod WebRuns
mod TelemtRuns
mod AuthRuns
mod UpdateRuns
mod ServerRuns
mod StoreRuns
mod SystemRuns
mod HttpRuns
