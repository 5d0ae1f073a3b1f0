-- ===== src/Domain.antt =====
-- domain.py: the values that the parts exchange, and what makes them valid.
pub mod Enums
pub mod Invalid
pub mod Signal
pub mod Policy
pub mod Plan
pub mod Strategy
pub mod Account
