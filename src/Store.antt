-- ===== src/Store.antt =====
-- storage/: the durable state. A repository method is a function from the tables to the tables.
pub mod Table
pub mod Tables
pub mod Shared
pub mod Intents
pub mod Actions
pub mod Strategies
pub mod Recovery
pub mod Deliveries
pub mod Step
pub mod Once
pub mod Settled
pub mod Claims
pub mod Reported
pub mod Quarantine
pub mod Withdrawal
pub mod Cancellation
pub mod Failure
pub mod HandsOff
pub mod Lease
pub mod Delivered
pub mod Sent
pub mod Shown
pub mod Paused
mod Samples
mod Examples
