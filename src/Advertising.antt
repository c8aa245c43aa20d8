-- ===== src/Advertising.antt =====
-- Advertising: campaigns that buy a place below quota alerts (apps/advertising).
pub mod Budget
pub mod Room
pub mod Formatting
pub mod Queries
pub mod Reservation
pub mod Sending
pub mod Capacity
pub mod Slots
pub mod Offers
