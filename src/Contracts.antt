-- ===== src/Contracts.antt =====
-- contract_symbols.py: reviewed aliases of contracts.
pub mod Defs
pub mod Resolved
mod Examples
