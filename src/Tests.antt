-- ===== src/Tests.antt =====
-- Concrete states of the database, at which the theorems are applied.
mod State
mod Deliveries
mod Work
mod Polling
mod Analyses
mod Budget
mod News
