-- ===== src/Domain/Plan.antt =====
-- domain.py: execution plans; the data types are in Defs, the validators in Rules.
pub mod Defs
pub mod Rules
pub mod Dumped
pub mod Valid
