-- ===== src/Telegram.antt =====
-- Delivery of alerts to Telegram (apps/telegram).
pub mod Freshness
pub mod Retry
pub mod State
pub mod Formatting
pub mod Loading
pub mod Conclusion
pub mod Task
pub mod Frame
pub mod Stands
pub mod SentStays
pub mod Capacity
pub mod Fanout
pub mod Requeue
pub mod Subscriptions
pub mod RequeueCounts
pub mod SubscriptionStatus
pub mod SubscriptionStart
pub mod Client
pub mod Fanouts
pub mod Answers
pub mod Countdown
pub mod Length
pub mod Requests
pub mod OneRequest
