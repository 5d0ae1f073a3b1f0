-- ===== src/PortfolioRisk.antt =====
-- portfolio_risk.py: the stop risk that the account already carries.
pub mod Defs
pub mod Known
pub mod Bounds
mod Examples
