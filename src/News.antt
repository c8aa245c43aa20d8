-- ===== src/News.antt =====
-- The news feed (apps/news).
pub mod Budget
pub mod BudgetBounds
pub mod Settlement
pub mod SettledOnce
pub mod Receipts
pub mod Delivered
pub mod Unsent
