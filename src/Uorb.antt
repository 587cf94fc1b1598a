-- ===== src/Uorb.antt =====
-- crates/px4-uorb: publications and subscriptions over the broker.
pub mod Broker
pub mod Client
pub mod Notifies
pub mod Handles
pub mod Delivery
pub mod Wakeup
pub mod Account
pub mod Advertising
pub mod Racing
pub mod Topics
pub mod Overlap
mod Tests
