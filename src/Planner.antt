-- ===== src/Planner.antt =====
-- execution.py: the deterministic planner.
pub mod Error
pub mod Entries
pub mod Sizing
pub mod Targets
pub mod Build
pub mod Rebase
mod Stages
mod Orders
pub mod Risk
pub mod Geometry
pub mod Rebased
pub mod Samples
mod Examples
