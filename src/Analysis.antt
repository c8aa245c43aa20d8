-- ===== src/Analysis.antt =====
-- Analyses of the source posts (apps/analysis).
pub mod Saving
pub mod Signals
pub mod Quality
pub mod Failures
pub mod Task
pub mod ResultStays
pub mod TaskKeeps
pub mod Review
pub mod Approval
pub mod SuccessStays
