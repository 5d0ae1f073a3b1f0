-- ===== src/EntryLimits.antt =====
-- bybit/entry_limits.py: physical entries within the limits of the exchange.
pub mod Share
pub mod Fair
pub mod Defs
pub mod Capacity
mod Examples
