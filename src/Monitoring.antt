-- ===== src/Monitoring.antt =====
-- Polling of the sources and dispatch of their posts to the analysis queue (apps/monitoring).
pub mod Routing
pub mod XApi
pub mod XUsers
pub mod XTimeline
pub mod XPaging
pub mod XPagingEnds
pub mod Normalization
pub mod PostIds
pub mod PostIdOrder
pub mod Preparation
pub mod Ingestion
pub mod Resolution
pub mod Polling
pub mod PostStore
pub mod Persistence
pub mod PollingKeeps
pub mod PollKeeps
pub mod BackfillKeeps
pub mod Cursor
pub mod PostsStand
pub mod PollUnchanged
pub mod PollFailure
pub mod PollingSchedule
pub mod Backfill
pub mod Dispatch
pub mod DispatchCounts
pub mod Recovery
pub mod RecoveryReturns
