-- ===== src/Coordinator.antt =====
-- execution_coordinator.py: approved intents and actions are claimed, executed and recorded.
pub mod Ports
pub mod Zones
pub mod Exposure
pub mod Preflight
pub mod Opens
pub mod Actions
pub mod Ledger
pub mod Settled
pub mod Evidence
pub mod Stages
pub mod Opened
mod Examples
