-- ===== src/Supervisor.antt =====
-- position_supervisor.py and position_management/: the supervision of live positions.
pub mod Ports
pub mod Orders
pub mod Trailing
pub mod Fills
pub mod Targets
pub mod Handoff
pub mod Replacement
pub mod Install
pub mod Drift
pub mod Steps
pub mod Expiry
pub mod Live
pub mod Reconcile
pub mod Pass
pub mod Fuel
pub mod Guard
pub mod FullStop
pub mod Geometry
mod Examples
